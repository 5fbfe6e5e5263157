-- ===== src/Storage/Postgres/History.antt =====
-- storage/postgres.py: the signal states, prices, risk events, regimes and equity snapshots.
use mathlib.Core.List.{reverse}
use poly_market_prediction_b.Base.{
  ℕ, suc, String, Bool, not, Option, List, [], ◌∷◌, ◌++◌, ◌==◌, string_eq, nat_eq, ◌&&◌, any,
  select, map, take, if◌then◌else◌,
}
use poly_market_prediction_b.Core.Types.{Signal, FeedSnapshot}
use poly_market_prediction_b.Storage.{SignalState, PricePoint, RiskEvent, RiskKind}
use poly_market_prediction_b.Storage.{EquitySnapshot}
use poly_market_prediction_b.Storage.Trades.{meets}
use poly_market_prediction_b.Storage.Equity.{by_timestamp, is_since}
use poly_market_prediction_b.Storage.Postgres.{PostgresDatabase}

module _ {F : Type 0} where
  -- INSERT ... ON CONFLICT (strategy, asset) DO UPDATE with every column of EXCLUDED but the key.
  unfoldable pub upsert_state : SignalState F → List (SignalState F) → List (SignalState F)
  upsert_state excluded rows =
      let conflicts : SignalState F → Bool =
        λ r. r.strategy == excluded.strategy && r.asset == excluded.asset in
      if any conflicts rows
      then map
          (λ r.
            if conflicts r then record excluded { strategy = r.strategy; asset = r.asset } else r)
          rows
      else rows ++ (excluded ∷ [])

  unfoldable pub save_signal_state :
      ℕ
      → String
      → String
      → Signal
      → F
      → FeedSnapshot F
      → Option F
      → Option F
      → String
      → Option String × Option F
      → PostgresDatabase F
      → PostgresDatabase F
  unfolding upsert_state
  save_signal_state now strategy asset signal confidence snap rsi bb_pct regime (title, up_price)
        db =
      let excluded : SignalState F = record {
        strategy = strategy;
        asset = asset;
        signal = signal;
        confidence = confidence;
        price = snap.last_price;
        cvd = snap.cvd_2min;
        vwap_change = snap.vwap_change;
        funding_rate = snap.funding_rate;
        liq_long = snap.liq_long_2min;
        liq_short = snap.liq_short_2min;
        rsi = rsi;
        bb_pct = bb_pct;
        regime = regime;
        market_title = title;
        market_up_price = up_price;
        updated_at = now;
      } in
      record db { signal_state = upsert_state excluded db.signal_state }

  -- The ids of `SELECT id ... WHERE asset=$1 ORDER BY id DESC LIMIT 200`.
  abbrev pub newest_ids : String → List (PricePoint F) → List ℕ
  newest_ids asset rows =
      map (λ (p : PricePoint F). p.id)
        (take 200 (reverse (select (λ (p : PricePoint F). p.asset == asset) rows)))

  unfoldable pub prune : String → List (PricePoint F) → List (PricePoint F)
  prune asset rows =
      select
        (λ (p : PricePoint F).
          not (p.asset == asset && not (any (λ i. p.id == i) (newest_ids asset rows))))
        rows

  unfoldable pub record_price : ℕ → String → F → PostgresDatabase F → PostgresDatabase F
  unfolding prune
  record_price now asset price db =
      let point : PricePoint F = record {
        id = db.price_history.next;
        timestamp = now;
        asset = asset;
        price = price;
      } in
      record db {
        price_history = record {
          rows = prune asset (db.price_history.rows ++ (point ∷ []));
          next = suc db.price_history.next;
        };
      }

  unfoldable pub get_price_history : String → ℕ → PostgresDatabase F → List (ℕ × F)
  get_price_history asset limit db =
      let rows = select (λ (p : PricePoint F). p.asset == asset) db.price_history.rows in
      reverse (map (λ (p : PricePoint F). (p.timestamp, p.price)) (take limit (reverse rows)))

  unfoldable pub log_risk_event :
      ℕ
      → RiskKind
      → Option String
      → Option String
      → List F
      → PostgresDatabase F
      → PostgresDatabase F
  log_risk_event now event_type strategy asset details db = record db {
    risk_events =
        db.risk_events
        ++ (record {
          timestamp = now;
          event_type = event_type;
          strategy = strategy;
          asset = asset;
          details = details;
        }
            ∷ []);
  }

  unfoldable pub get_recent_risk_events : ℕ → PostgresDatabase F → List (RiskEvent F)
  get_recent_risk_events limit db = take limit (reverse db.risk_events)

  unfoldable pub save_regime :
      ℕ → String → String → Option F → Option F → Option F → PostgresDatabase F → PostgresDatabase F
  save_regime now asset regime adx bb_width ema_slope db = record db {
    regime_history =
        db.regime_history
        ++ (record {
          timestamp = now;
          asset = asset;
          regime = regime;
          adx = adx;
          bb_width = bb_width;
          ema_slope = ema_slope;
        }
            ∷ []);
  }

  unfoldable pub save_equity_snapshot :
      ℕ → String → String → F → F → ℕ → PostgresDatabase F → PostgresDatabase F
  save_equity_snapshot now strategy asset bankroll total_pnl open_trades db = record db {
    equity_snapshots =
        db.equity_snapshots
        ++ (record {
          timestamp = now;
          strategy = strategy;
          asset = asset;
          bankroll = bankroll;
          total_pnl = total_pnl;
          open_trades = open_trades;
        }
            ∷ []);
  }

  -- `scan` is the order in which the rows come to the sort, which leaves those of one timestamp in it.
  unfoldable pub get_equity_curve :
      (List (EquitySnapshot F) → List (EquitySnapshot F))
      → Option String
      → Option String
      → Option ℕ
      → PostgresDatabase F
      → List (EquitySnapshot F)
  get_equity_curve scan strategy asset since db = by_timestamp (
      select (λ s. meets strategy s.strategy && meets asset s.asset && is_since since s)
        (scan db.equity_snapshots))

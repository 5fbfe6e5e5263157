-- ===== src/Storage/History.antt =====
-- database.py: the signal state of each bot, the price history, risk events, regimes and equity.
pub mod Prices
use mathlib.Core.List.{reverse}
use poly_market_prediction_b.Base.{
  ℕ, String, Bool, not, Option, List, [], ◌∷◌, ◌++◌, ◌==◌, string_eq, nat_eq, ◌&&◌, if◌then◌else◌,
  any, select, map,
}
use poly_market_prediction_b.Base.Tables.{update_where, next_id}
use poly_market_prediction_b.Core.Types.{Signal, FeedSnapshot}
use poly_market_prediction_b.Storage.{Database, SignalState, PricePoint, RiskEvent, RiskKind}
use poly_market_prediction_b.Storage.Trades.{newest}

module _ {F : Type 0} where
  unfoldable pub signal_row :
      ℕ
      → String
      → String
      → Signal
      → F
      → FeedSnapshot F
      → Option F
      → Option F
      → String
      → Option String × Option F
      → SignalState F
  signal_row now strategy asset signal confidence snap rsi bb_pct regime (title, up_price) =
      record {
        strategy = strategy;
        asset = asset;
        signal = signal;
        confidence = confidence;
        price = snap.last_price;
        cvd = snap.cvd_2min;
        vwap_change = snap.vwap_change;
        funding_rate = snap.funding_rate;
        liq_long = snap.liq_long_2min;
        liq_short = snap.liq_short_2min;
        rsi = rsi;
        bb_pct = bb_pct;
        regime = regime;
        market_title = title;
        market_up_price = up_price;
        updated_at = now;
      }

  abbrev pub is_state_of : String → String → SignalState F → Bool
  is_state_of strategy asset r = r.strategy == strategy && r.asset == asset

  -- INSERT ... ON CONFLICT(strategy, asset) DO UPDATE: all columns but the key are set anew.
  unfoldable pub upsert_signal_state : SignalState F → List (SignalState F) → List (SignalState F)
  upsert_signal_state new rows =
      if any (is_state_of new.strategy new.asset) rows
      then update_where (is_state_of new.strategy new.asset)
          (λ r. record new { strategy = r.strategy; asset = r.asset }) rows
      else rows ++ (new ∷ [])

  unfoldable pub save_signal_state :
      ℕ
      → String
      → String
      → Signal
      → F
      → FeedSnapshot F
      → Option F
      → Option F
      → String
      → Option String × Option F
      → Database F
      → Database F
  unfolding signal_row upsert_signal_state
  save_signal_state now strategy asset signal confidence snap rsi bb_pct regime market db =
      record db {
        signal_state =
            upsert_signal_state
              (signal_row now strategy asset signal confidence snap rsi bb_pct regime market)
              db.signal_state;
      }

  abbrev pub is_price_of : String → PricePoint F → Bool
  is_price_of asset p = p.asset == asset

  -- `id IN (SELECT id ... WHERE asset=? ORDER BY id DESC LIMIT 200)`
  abbrev pub is_kept : String → List (PricePoint F) → PricePoint F → Bool
  is_kept asset rows p =
      any (λ (q : PricePoint F). p.id == q.id) (newest 200 (select (is_price_of asset) rows))

  -- The DELETE drops the asset's rows that are not among its newest 200.
  unfoldable pub trim_prices : String → List (PricePoint F) → List (PricePoint F)
  trim_prices asset rows =
      select (λ p. not (is_price_of asset p && not (is_kept asset rows p))) rows

  unfoldable pub record_price : ℕ → String → F → Database F → Database F
  unfolding trim_prices
  record_price now asset price db =
      let row : PricePoint F = record {
        id = next_id (λ (p : PricePoint F). p.id) db.price_history;
        timestamp = now;
        asset = asset;
        price = price;
      } in
      record db { price_history = trim_prices asset (db.price_history ++ (row ∷ [])) }

  -- The newest `limit` points of the asset, oldest first.
  unfoldable pub get_price_history : String → ℕ → Database F → List (ℕ × F)
  get_price_history asset limit db =
      map (λ (p : PricePoint F). (p.timestamp, p.price))
        (reverse (newest limit (select (is_price_of asset) db.price_history)))

  unfoldable pub log_risk_event :
      ℕ → RiskKind → Option String → Option String → List F → Database F → Database F
  log_risk_event now event_type strategy asset details db = record db {
    risk_events =
        db.risk_events
        ++ (record {
          timestamp = now;
          event_type = event_type;
          strategy = strategy;
          asset = asset;
          details = details;
        }
            ∷ []);
  }

  unfoldable pub get_recent_risk_events : ℕ → Database F → List (RiskEvent F)
  get_recent_risk_events limit db = newest limit db.risk_events

  unfoldable pub save_regime :
      ℕ → String → String → Option F → Option F → Option F → Database F → Database F
  save_regime now asset regime adx bb_width ema_slope db = record db {
    regime_history =
        db.regime_history
        ++ (record {
          timestamp = now;
          asset = asset;
          regime = regime;
          adx = adx;
          bb_width = bb_width;
          ema_slope = ema_slope;
        }
            ∷ []);
  }

  unfoldable pub save_equity_snapshot : ℕ → String → String → F → F → ℕ → Database F → Database F
  save_equity_snapshot now strategy asset bankroll total_pnl open_trades db = record db {
    equity_snapshots =
        db.equity_snapshots
        ++ (record {
          timestamp = now;
          strategy = strategy;
          asset = asset;
          bankroll = bankroll;
          total_pnl = total_pnl;
          open_trades = open_trades;
        }
            ∷ []);
  }

-- ===== src/Storage/Trades.antt =====
-- database.py, section Trades: a trade is reserved against the balance, resolved, and read back.
use poly_market_prediction_b.Base.{
  ℕ, String, Bool, true, false, Option, none, some, List, [], ◌∷◌, ◌++◌, map, ◌==◌, string_eq, ◌&&◌,
  if◌then◌else◌, select, length, take, is_some,
}
use mathlib.Core.List.{reverse}
use poly_market_prediction_b.Base.Tables.{fetch_one, update_where, next_id}
use poly_market_prediction_b.Core.Types.{Signal, Outcome, FeedSnapshot, is_win, is_yes, is_no}
use poly_market_prediction_b.Number.{Number, zero_f, of_ℕ, fmax}
use poly_market_prediction_b.Storage.{
  Bankroll, Database, Trade, is_row_of, is_trade_of, has_id, is_open,
}

-- The arguments of `reserve_and_insert_trade`.
pub record Order (F : Type 0) : Type 0 where
  pub strategy : String
  pub asset : String
  pub market_id : Option String
  pub signal : Signal
  pub entry_price : F
  pub bet_size : F
  pub confidence : F
  pub regime : String
  pub snapshot : FeedSnapshot F
  pub rsi : Option F
  pub bb_pct : Option F
  pub indicators_json : Option String

pub record RollingStats (F : Type 0) : Type 0 where
  pub resolved : ℕ
  pub win_rate : F
  pub avg_entry : F

pub record Stats (F : Type 0) : Type 0 where
  pub trades : ℕ
  pub open_count : ℕ
  pub wins : ℕ
  pub win_rate : F
  pub avg_entry : F
  pub total_pnl : F
  pub edge : F

-- A filter that is not given, `None` or the empty text, is left out.
abbrev pub meets : Option String → String → Bool
meets none s = true
meets (some w) s = if w == "" then true else s == w

-- `ORDER BY id DESC LIMIT n`
abbrev pub newest {ℓ} : {A : Type ℓ} → ℕ → List A → List A
newest n rows = take n (reverse rows)

module _ {F : Type 0} ⦃num : Number F⦄ where
  open num use {dec, add, sub, mul, div, lt, round}

  -- The row of the INSERT statement.
  unfoldable pub new_trade : ℕ → ℕ → Order F → Trade F
  new_trade i now o = record {
    id = i;
    timestamp = now;
    strategy = o.strategy;
    asset = o.asset;
    market_id = o.market_id;
    signal = o.signal;
    entry_price = o.entry_price;
    bet_size = o.bet_size;
    confidence = o.confidence;
    regime = o.regime;
    outcome = none;
    pnl = none;
    cvd_at_signal = some o.snapshot.cvd_2min;
    funding_at_signal = some o.snapshot.funding_rate;
    liq_long_at_signal = some o.snapshot.liq_long_2min;
    liq_short_at_signal = some o.snapshot.liq_short_2min;
    vwap_change_at_signal = some o.snapshot.vwap_change;
    rsi_at_signal = o.rsi;
    bb_pct_at_signal = o.bb_pct;
    indicators_json = o.indicators_json;
  }

  -- The columns that the UPDATE statements set.
  abbrev pub set_current : ℕ → F → Bankroll F → Bankroll F
  set_current now x r = record r { current = x; updated_at = now }

  abbrev pub set_balance : ℕ → F → F → Bankroll F → Bankroll F
  set_balance now x top r = record r { current = x; peak = top; updated_at = now }

  abbrev pub set_outcome : Outcome → F → Trade F → Trade F
  set_outcome outcome pnl t = record t { outcome = some outcome; pnl = some pnl }

  abbrev pub cost_of : Order F → F
  cost_of o = mul o.entry_price o.bet_size

  abbrev pub trade_id_of : Trade F → ℕ
  trade_id_of t = t.id

  -- The two writes of a reservation, once the balance has been read.
  unfoldable pub reserved : ℕ → Order F → Bankroll F → Database F → Database F
  unfolding new_trade
  reserved now o row db = record db {
    bankroll =
        update_where (is_row_of o.strategy o.asset) (set_current now (sub row.current (cost_of o)))
          db.bankroll;
    trades = db.trades ++ (new_trade (next_id trade_id_of db.trades) now o ∷ []);
  }

  unfoldable pub reserve_and_insert_trade : ℕ → Order F → Database F → Option ℕ × Database F
  unfolding reserved
  reserve_and_insert_trade now o db = elim (fetch_one (is_row_of o.strategy o.asset) db.bankroll) [
    | none ↦ (none, db)
    | some row ↦
        if lt row.current (cost_of o)
        then (none, db)
        else (some (next_id trade_id_of db.trades), reserved now o row db)
  ]

  -- `bankroll["current"] if bankroll else 0`, and so for the peak.
  abbrev pub current_or : Option (Bankroll F) → F
  current_or row = elim row [ none ↦ zero_f | some r ↦ r.current ]

  abbrev pub peak_or : Option (Bankroll F) → F
  peak_or row = elim row [ none ↦ zero_f | some r ↦ r.peak ]

  -- The writes of a resolution, once the trade has been read. The row of the balance is read after
  -- the trade is updated; where it is missing the last UPDATE meets no row.
  unfoldable pub resolved : ℕ → ℕ → Outcome → F → Trade F → Database F → Database F
  resolved now trade_id outcome pnl trade db =
      let row = fetch_one (is_row_of trade.strategy trade.asset) db.bankroll in
      let cost = mul trade.entry_price trade.bet_size in
      let new_bal = add (add (current_or row) cost) pnl in
      record db {
        trades = update_where (has_id trade_id) (set_outcome outcome pnl) db.trades;
        bankroll =
            update_where (is_row_of trade.strategy trade.asset)
              (set_balance now new_bal (fmax (peak_or row) new_bal)) db.bankroll;
      }

  unfoldable pub resolve_trade : ℕ → ℕ → Outcome → F → Database F → Database F
  unfolding resolved
  resolve_trade now trade_id outcome pnl db = elim (fetch_one (has_id trade_id) db.trades) [
    | none ↦ db
    | some trade ↦ resolved now trade_id outcome pnl trade db
  ]

  unfoldable pub get_open_trades : Option String → Option String → Database F → List (Trade F)
  get_open_trades strategy asset db =
      select (λ t. is_open t && (meets strategy t.strategy && meets asset t.asset)) db.trades

  unfoldable pub resolved_trades : String → String → Database F → List (Trade F)
  resolved_trades strategy asset db =
      select (λ t. is_trade_of strategy asset t && is_some t.outcome) db.trades

  abbrev pub has_won : Trade F → Bool
  has_won t = elim t.outcome [ none ↦ false | some o ↦ is_win o ]

  -- Python's `sum` over a column.
  abbrev pub sum_of : (Trade F → F) → List (Trade F) → F
  sum_of f ts = mathlib.Core.List.foldl (λ acc t. add acc (f t)) zero_f ts

  unfoldable pub get_rolling_stats : String → String → ℕ → Database F → RollingStats F
  unfolding resolved_trades
  get_rolling_stats strategy asset n db =
      let rows = newest n (resolved_trades strategy asset db) in
      elim rows [
        | [] ↦ record { resolved = 0; win_rate = zero_f; avg_entry = dec 5 1 }
        | row ∷ more ↦
            let total = length (row ∷ more) in
            record {
              resolved = total;
              win_rate = div (of_ℕ (length (select has_won (row ∷ more)))) (of_ℕ total);
              avg_entry = div (sum_of (λ t. t.entry_price) (row ∷ more)) (of_ℕ total);
            }
      ]

  unfoldable pub get_recent_outcomes : String → String → ℕ → Database F → List (Option Outcome)
  unfolding resolved_trades
  get_recent_outcomes strategy asset n db =
      map (λ t. t.outcome) (newest n (resolved_trades strategy asset db))

  abbrev pub pnl_of : Trade F → F
  pnl_of t = elim t.pnl [ none ↦ zero_f | some p ↦ p ]

  unfoldable pub get_stats : String → String → Database F → Stats F
  unfolding resolved_trades
  get_stats strategy asset db =
      let open_count = length (select (λ t. is_trade_of strategy asset t && is_open t) db.trades) in
      elim (resolved_trades strategy asset db) [
        | [] ↦ record {
          trades = 0;
          open_count = open_count;
          wins = 0;
          win_rate = zero_f;
          avg_entry = zero_f;
          total_pnl = zero_f;
          edge = zero_f;
        }
        | row ∷ more ↦
            let rows = row ∷ more in
            let wins = length (select has_won rows) in
            let total = length rows in
            let avg_entry = div (sum_of (λ t. t.entry_price) rows) (of_ℕ total) in
            let total_pnl = sum_of pnl_of (select (λ t. is_some t.pnl) rows) in
            let win_rate = div (of_ℕ wins) (of_ℕ total) in
            record {
              trades = total;
              open_count = open_count;
              wins = wins;
              win_rate = round 1 (mul win_rate (of_ℕ 100));
              avg_entry = round 3 avg_entry;
              total_pnl = round 2 total_pnl;
              edge = round 4 (sub win_rate avg_entry);
            }
      ]

  -- `count_open_by_direction`: the counts for BUY_YES and BUY_NO.
  unfoldable pub count_open_by_direction : String → Database F → ℕ × ℕ
  count_open_by_direction asset db =
      let open_rows = select (λ t. t.asset == asset && is_open t) db.trades in
      (
        length (select (λ t. is_yes t.signal) open_rows),
        length (select (λ t. is_no t.signal) open_rows),
      )

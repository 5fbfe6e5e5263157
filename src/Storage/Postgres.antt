-- ===== src/Storage/Postgres.antt =====
-- storage/postgres.py (`PostgresDatabase`): the tables, and the writes of the bankroll and the trades. A table whose ids
-- are SERIAL keeps the next value of its sequence; every other id is read by nothing. The columns of
-- `trades` are part of the state, since the code inserts into one that its own schema does not have,
-- and which docker/postgres/init.sql makes a JSONB.
pub mod Reads
pub mod History
pub mod Commands
pub mod Rows
pub mod Mirror
pub mod Answers
pub mod Schema
use poly_market_prediction_b.Base.{
  ℕ, suc, ◌+◌, String, Bool, Option, none, some, List, [], ◌∷◌, ◌++◌, ◌==◌, string_eq, map, any,
  all, if◌then◌else◌,
}
use poly_market_prediction_b.Base.Tables.{fetch_one, update_where}
use poly_market_prediction_b.Core.Types.{Outcome}
use poly_market_prediction_b.Number.{Number, zero_f, fmax}
use poly_market_prediction_b.Storage.{
  Trade, Bankroll, SignalState, PricePoint, RiskEvent, RegimeRow, EquitySnapshot, is_row_of, has_id,
}
use poly_market_prediction_b.Storage.Trades.{Order, new_trade}

-- A table with a SERIAL id.
pub record Table {ℓ} (A : Type ℓ) : Type ℓ where
  pub rows : List A
  pub next : ℕ

-- The columns of `trades`. `as_stored` is the text that is read back of one written to indicators_json:
-- the same text for a TEXT column, and its normal form for a JSONB, which takes every text that
-- `json.dumps` writes, but for NaN and infinities.
pub record Columns : Type 0 where
  pub names : List String
  pub as_stored : String → String

pub record PostgresDatabase (F : Type 0) : Type 0 where
  pub columns : Columns
  pub trades : Table (Trade F)
  pub bankroll : List (Bankroll F)
  pub signal_state : List (SignalState F)
  pub price_history : Table (PricePoint F)
  pub risk_events : List (RiskEvent F)
  pub regime_history : List (RegimeRow F)
  pub equity_snapshots : List (EquitySnapshot F)

-- The columns that `_init_schema` gives to `trades`.
abbrev pub trade_columns : List String
trade_columns =
    "id" ∷ "timestamp" ∷ "strategy" ∷ "asset" ∷ "market_id" ∷ "signal" ∷ "entry_price" ∷ "bet_size"
    ∷ "confidence" ∷ "regime" ∷ "outcome" ∷ "pnl" ∷ "cvd_at_signal" ∷ "funding_at_signal"
    ∷ "liq_long_at_signal" ∷ "liq_short_at_signal" ∷ "vwap_change_at_signal" ∷ "rsi_at_signal"
    ∷ "bb_pct_at_signal" ∷ []

-- The columns that `reserve_and_insert_trade` gives a value.
abbrev pub inserted_columns : List String
inserted_columns =
    "timestamp" ∷ "strategy" ∷ "asset" ∷ "market_id" ∷ "signal" ∷ "entry_price" ∷ "bet_size"
    ∷ "confidence" ∷ "regime" ∷ "cvd_at_signal" ∷ "funding_at_signal" ∷ "liq_long_at_signal"
    ∷ "liq_short_at_signal" ∷ "vwap_change_at_signal" ∷ "rsi_at_signal" ∷ "bb_pct_at_signal"
    ∷ "indicators_json" ∷ []

-- What a statement comes to: a value, or the exception for a column that the table does not have.
pub data Reply (A : Type 0) : Type 0 where
  replied : A → Reply A
  undefined_column : Reply A

-- Whether a table with these columns takes the row.
abbrev pub takes_row : Columns → Bool
takes_row columns = all (λ name. any (λ column. column == name) columns.names) inserted_columns

-- The columns that `_init_schema` makes, without one for the indicators.
abbrev pub own_columns : Columns
own_columns = record { names = trade_columns; as_stored = λ text. text }

-- The two loops of `seed_bankroll`.
unfoldable pub pairs_of : List String → List String → List (String × String)
pairs_of [] assets = []
pairs_of (strategy ∷ strategies) assets =
    map (λ asset. (strategy, asset)) assets ++ pairs_of strategies assets

module _ {F : Type 0} where
  abbrev pub empty_database : Columns → PostgresDatabase F
  empty_database columns = record {
    columns = columns;
    trades = record { rows = []; next = 1 };
    bankroll = [];
    signal_state = [];
    price_history = record { rows = []; next = 1 };
    risk_events = [];
    regime_history = [];
    equity_snapshots = [];
  }

  -- The order with its indicators as the column keeps them.
  abbrev pub as_kept : Columns → Order F → Order F
  as_kept columns o = record o {
    indicators_json = (elim o.indicators_json [
      | none ↦ none
      | some text ↦ some (columns.as_stored text)
    ]);
  }

  -- `_init_schema`, on a database without the tables or with all of them: it leaves what there is.
  unfoldable pub init_schema : Option (PostgresDatabase F) → PostgresDatabase F
  init_schema none = empty_database own_columns
  init_schema (some db) = db

  -- INSERT ... ON CONFLICT (strategy, asset) DO NOTHING
  unfoldable pub seed_pair : ℕ → F → String → String → List (Bankroll F) → List (Bankroll F)
  seed_pair now initial strategy asset [] =
      record {
        strategy = strategy;
        asset = asset;
        current = initial;
        peak = initial;
        updated_at = now;
      }
      ∷ []
  seed_pair now initial strategy asset (r ∷ rows) =
      let rest = seed_pair now initial strategy asset rows in
      if is_row_of strategy asset r then r ∷ rows else r ∷ rest

  unfoldable pub seed_pairs : ℕ → F → List (String × String) → List (Bankroll F) → List (Bankroll F)
  unfolding seed_pair
  seed_pairs now initial [] rows = rows
  seed_pairs now initial ((strategy, asset) ∷ pairs) rows =
      seed_pairs now initial pairs (seed_pair now initial strategy asset rows)

  unfoldable pub seed_bankroll :
      ℕ → List String → List String → F → PostgresDatabase F → PostgresDatabase F
  unfolding seed_pairs pairs_of
  seed_bankroll now strategies assets initial db = record db {
    bankroll = seed_pairs now initial (pairs_of strategies assets) db.bankroll;
  }

module _ {F : Type 0} ⦃num : Number F⦄ where
  open num use {dec, add, sub, mul, div, lt, round}

  unfoldable pub deduct_fee : String → String → F → PostgresDatabase F → PostgresDatabase F
  deduct_fee strategy asset amount db = record db {
    bankroll =
        update_where (is_row_of strategy asset) (λ r. record r { current = sub r.current amount })
          db.bankroll;
  }

  -- The INSERT with `nextval`, once the balance is debited; what the transaction has done is undone
  -- where it raises.
  unfoldable pub insert_row :
      ℕ → Order F → PostgresDatabase F → PostgresDatabase F → Reply (Option ℕ) × PostgresDatabase F
  insert_row now o before db =
      if takes_row db.columns
      then (
        replied (some db.trades.next),
        record db {
          trades = record {
            rows = db.trades.rows ++ (new_trade db.trades.next now (as_kept db.columns o) ∷ []);
            next = suc db.trades.next;
          };
        },
      )
      else (undefined_column, before)

  unfoldable pub reserve_and_insert_trade :
      ℕ → Order F → PostgresDatabase F → Reply (Option ℕ) × PostgresDatabase F
  unfolding insert_row
  reserve_and_insert_trade now o db =
      let usdc_cost = mul o.entry_price o.bet_size in
      elim (fetch_one (is_row_of o.strategy o.asset) db.bankroll) [
        | none ↦ (replied none, db)
        | some row ↦
            if lt row.current usdc_cost
            then (replied none, db)
            else insert_row now o db (record db {
              bankroll =
                  update_where (is_row_of o.strategy o.asset)
                    (λ r. record r { current = sub row.current usdc_cost; updated_at = now })
                    db.bankroll;
            })
      ]

  unfoldable pub resolve_trade : ℕ → ℕ → Outcome → F → PostgresDatabase F → PostgresDatabase F
  resolve_trade now trade_id outcome pnl db = elim (fetch_one (has_id trade_id) db.trades.rows) [
    | none ↦ db
    | some trade ↦
        let account = is_row_of trade.strategy trade.asset in
        let usdc_cost = mul trade.entry_price trade.bet_size in
        let bankroll = fetch_one account db.bankroll in
        let current : F = elim bankroll [ none ↦ zero_f | some r ↦ r.current ] in
        let peak : F = elim bankroll [ none ↦ zero_f | some r ↦ r.peak ] in
        let new_bal = add (add current usdc_cost) pnl in
        let new_peak = fmax peak new_bal in
        record db {
          trades = record {
            rows =
                update_where (has_id trade_id)
                  (λ t. record t { outcome = some outcome; pnl = some pnl }) db.trades.rows;
            next = db.trades.next;
          };
          bankroll =
              update_where account
                (λ r. record r { current = new_bal; peak = new_peak; updated_at = now })
                db.bankroll;
        }
  ]

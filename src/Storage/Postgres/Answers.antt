-- ===== src/Storage/Postgres/Answers.antt =====
-- storage/postgres.py against storage/database.py: the same writes give the same answers.
use mathlib.Core.List.Permᴰ
use mathlib.Core.List.Permᴰ.{Permᴰ}
use poly_market_prediction_b.Base.{ℕ, String, ◌≡◌, Option, List, string_eq}
use poly_market_prediction_b.Number.{Number}
use poly_market_prediction_b.Storage.{Database, EquitySnapshot, Trade}
use poly_market_prediction_b.Storage.Accounts
use poly_market_prediction_b.Storage.Trades
use poly_market_prediction_b.Storage.Trades.{Order, RollingStats}
use poly_market_prediction_b.Storage.History as Sqlite
use poly_market_prediction_b.Storage.Equity
use poly_market_prediction_b.Storage.Postgres.{PostgresDatabase, replied, reserve_and_insert_trade}
use poly_market_prediction_b.Storage.Postgres.Reads.{
  get_bankroll, get_bankroll_peak, get_rolling_stats, get_recent_outcomes, get_open_trades,
  count_open_by_direction,
}
use poly_market_prediction_b.Storage.Postgres.History.{
  get_price_history, get_recent_risk_events, get_equity_curve,
}

module _ {F : Type 0} ⦃num : Number F⦄ where
  -- The reads that the two databases agree on. Rows that no ORDER BY puts in order, the open trades and
  -- the snapshots of one timestamp, are the same up to their order.
  pub record Agree (scan : List (Trade F) → List (Trade F))
      (scan_equity : List (EquitySnapshot F) → List (EquitySnapshot F)) (pg : PostgresDatabase F)
      (db : Database F) : Type 0 where
    pub reserves :
        (now : ℕ) (o : Order F)
        → (reserve_and_insert_trade now o pg).0
          ≡ replied (Trades.reserve_and_insert_trade now o db).0
    pub balance : (s a : String) → get_bankroll s a pg ≡ Accounts.get_bankroll s a db
    pub peak : (s a : String) → get_bankroll_peak s a pg ≡ Accounts.get_bankroll_peak s a db
    pub outcomes :
        (s a : String) (n : ℕ) → get_recent_outcomes s a n pg ≡ Trades.get_recent_outcomes s a n db
    pub rolling :
        (s a : String) (n : ℕ) → get_rolling_stats s a n pg ≡ Trades.get_rolling_stats s a n db
    pub prices : (a : String) (n : ℕ) → get_price_history a n pg ≡ Sqlite.get_price_history a n db
    pub events : (n : ℕ) → get_recent_risk_events n pg ≡ Sqlite.get_recent_risk_events n db
    pub curve :
        (s a : Option String) (since : Option ℕ)
        → Permᴰ (get_equity_curve scan_equity s a since pg) (Equity.get_equity_curve s a since db)
    pub open_trades :
        (s a : Option String) → Permᴰ (get_open_trades scan s a pg) (Trades.get_open_trades s a db)
    pub exposure :
        (a : String) → count_open_by_direction scan a pg ≡ Trades.count_open_by_direction a db

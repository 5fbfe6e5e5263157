-- ===== src/Storage/Postgres/Commands.antt =====
-- storage/postgres.py: the methods that write, as data, run on either database.
use poly_market_prediction_b.Base.{ℕ, String, Option, List, [], ◌∷◌}
use poly_market_prediction_b.Core.Types.{Signal, Outcome, FeedSnapshot}
use poly_market_prediction_b.Number.{Number}
use poly_market_prediction_b.Storage.{RiskKind}
use poly_market_prediction_b.Storage.Trades.{Order}
use poly_market_prediction_b.Storage.Invariant
use poly_market_prediction_b.Storage.Postgres.{
  PostgresDatabase, Columns, as_kept, seed_bankroll, deduct_fee, reserve_and_insert_trade,
  resolve_trade,
}
use poly_market_prediction_b.Storage.Postgres.History.{
  save_signal_state, record_price, log_risk_event, save_regime, save_equity_snapshot,
}

-- Both databases have these methods; those of the dead letters are not among the methods here.
pub data Command (F : Type 0) : Type 0 where
  seed : ℕ → List String → List String → F → Command F
  fee : String → String → F → Command F
  reserve : ℕ → Order F → Command F
  resolve : ℕ → ℕ → Outcome → F → Command F
  state :
      ℕ
      → String
      → String
      → Signal
      → F
      → FeedSnapshot F
      → Option F
      → Option F
      → String
      → Option String × Option F
      → Command F
  price : ℕ → String → F → Command F
  event : ℕ → RiskKind → Option String → Option String → List F → Command F
  regime : ℕ → String → String → Option F → Option F → Option F → Command F
  equity : ℕ → String → String → F → F → ℕ → Command F

module _ {F : Type 0} ⦃num : Number F⦄ where
  unfoldable pub command : Command F → PostgresDatabase F → PostgresDatabase F
  command (seed now ss assets x) db = seed_bankroll now ss assets x db
  command (fee s a x) db = deduct_fee s a x db
  command (reserve now o) db = (reserve_and_insert_trade now o db).1
  command (resolve now i o p) db = resolve_trade now i o p db
  command (state now s a sig c snap rsi bb reg m) db =
      save_signal_state now s a sig c snap rsi bb reg m db
  command (price now a p) db = record_price now a p db
  command (event now k s a d) db = log_risk_event now k s a d db
  command (regime now a r x y z) db = save_regime now a r x y z db
  command (equity now s a b p n) db = save_equity_snapshot now s a b p n db

  unfoldable pub commands : List (Command F) → PostgresDatabase F → PostgresDatabase F
  unfolding command
  commands [] db = db
  commands (c ∷ cs) db = commands cs (command c db)

-- The same call of the SQLite database, with the indicators of an order as the columns keep them.
abbrev pub on_sqlite : {F : Type 0} → Columns → Command F → Invariant.Write F
on_sqlite columns (seed now ss assets x) = Invariant.seed now ss assets x
on_sqlite columns (fee s a x) = Invariant.fee s a x
on_sqlite columns (reserve now o) = Invariant.reserve now (as_kept columns o)
on_sqlite columns (resolve now i o p) = Invariant.resolve now i o p
on_sqlite columns (state now s a sig c snap rsi bb reg m) =
    Invariant.state now s a sig c snap rsi bb reg m
on_sqlite columns (price now a p) = Invariant.price now a p
on_sqlite columns (event now k s a d) = Invariant.event now k s a d
on_sqlite columns (regime now a r x y z) = Invariant.regime now a r x y z
on_sqlite columns (equity now s a b p n) = Invariant.equity now s a b p n

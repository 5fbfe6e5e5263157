-- ===== src/Storage/Postgres/Mirror.antt =====
-- storage/postgres.py against storage/database.py: the same writes leave the same tables.
use native.Mathlib.Nat.{le_refl}
use poly_market_prediction_b.Base.{
  ℕ, suc, String, true, ◌≡◌, refl, sym, ap, ◌∙◌, Option, List, [], ◌∷◌, ◌++◌, string_eq, nat_eq,
  map, arith,
}
use poly_market_prediction_b.Base.Tables.{next_id}
use poly_market_prediction_b.Core.Types.{Signal, Outcome, FeedSnapshot}
use poly_market_prediction_b.Number.{Number}
use poly_market_prediction_b.Storage.{Database, PricePoint, has_id}
use poly_market_prediction_b.Storage.Accounts
use poly_market_prediction_b.Storage.Accounts.{seed_row, seed_assets, seed_rows, charged}
use poly_market_prediction_b.Storage.Trades
use poly_market_prediction_b.Storage.Trades.{
  Order, newest, new_trade, reserved, resolved, trade_id_of, set_outcome,
}
use poly_market_prediction_b.Storage.History as Sqlite
use poly_market_prediction_b.Storage.History.{
  signal_row, upsert_signal_state, is_state_of, is_price_of, is_kept, trim_prices,
}
use poly_market_prediction_b.Storage.Invariant.{write, write_all}
use poly_market_prediction_b.Storage.Postgres.{
  PostgresDatabase, Columns, as_kept, replied, takes_row, seed_bankroll, deduct_fee, insert_row,
  reserve_and_insert_trade, resolve_trade,
}
use poly_market_prediction_b.Storage.Postgres.History.{
  save_signal_state, record_price, log_risk_event, save_regime, save_equity_snapshot,
}
use poly_market_prediction_b.Storage.Postgres.Commands.{
  Command, command, commands, on_sqlite, seed, fee, reserve, resolve, state, price, event, regime,
  equity,
}
use poly_market_prediction_b.Storage.Postgres.Rows.{
  next_id-append, next_id-update_where, price_id, prune-trim_prices, next_id-trim_prices,
  seed_pairs-seed_rows, upsert_state-eq,
}

module _ {F : Type 0} ⦃num : Number F⦄ where
  -- The PostgreSQL database with the rows of a SQLite database in every table that both have, and the
  -- sequences at the ids that SQLite gives next.
  unfoldable pub mirror : Columns → Database F → PostgresDatabase F
  mirror columns db = record {
    columns = columns;
    trades = record { rows = db.trades; next = next_id trade_id_of db.trades };
    bankroll = db.bankroll;
    signal_state = db.signal_state;
    price_history = record { rows = db.price_history; next = next_id price_id db.price_history };
    risk_events = db.risk_events;
    regime_history = db.regime_history;
    equity_snapshots = db.equity_snapshots;
  }

  seed-mirror :
      (now : ℕ) (ss assets : List String) (x : F) (columns : Columns) (db : Database F)
      → seed_bankroll now ss assets x (mirror columns db)
        ≡ mirror columns (Accounts.seed_bankroll now ss assets x db)
  unfolding seed_bankroll Accounts.seed_bankroll mirror
  seed-mirror now ss assets x columns db =
      ap (λ rows. record (mirror columns db) { bankroll = rows })
        (seed_pairs-seed_rows now x ss assets db.bankroll)

  fee-mirror :
      (s a : String) (x : F) (columns : Columns) (db : Database F)
      → deduct_fee s a x (mirror columns db) ≡ mirror columns (Accounts.deduct_fee s a x db)
  unfolding deduct_fee Accounts.deduct_fee mirror
  fee-mirror s a x columns db = refl

  -- Both answer a reservation alike, with the same id, and leave the same row but for the indicators.
  pub reserve-mirror :
      (now : ℕ) (o : Order F) (columns : Columns) (db : Database F)
      → takes_row columns ≡ true
      → reserve_and_insert_trade now o (mirror columns db) ≡ (
        replied (Trades.reserve_and_insert_trade now o db).0,
        mirror columns (Trades.reserve_and_insert_trade now (as_kept columns o) db).1,
      )
  unfolding reserve_and_insert_trade insert_row Trades.reserve_and_insert_trade reserved mirror
      new_trade
  reserve-mirror now o columns db h = ground (
    arith,
    h,
    next_id-append trade_id_of db.trades
        (new_trade (next_id trade_id_of db.trades) now (as_kept columns o)) (le_refl _),
  )

  resolve-mirror :
      (now i : ℕ) (outcome : Outcome) (pnl : F) (columns : Columns) (db : Database F)
      → resolve_trade now i outcome pnl (mirror columns db)
        ≡ mirror columns (Trades.resolve_trade now i outcome pnl db)
  unfolding resolve_trade Trades.resolve_trade resolved mirror
  resolve-mirror now i outcome pnl columns db = ground (
    arith,
    next_id-update_where trade_id_of (has_id i) (set_outcome outcome pnl) db.trades (λ t. refl),
  )

  state-mirror :
      (now : ℕ) (s a : String) (sig : Signal) (c : F) (snap : FeedSnapshot F) (rsi bb : Option F)
      (reg : String) (market : Option String × Option F) (columns : Columns) (db : Database F)
      → save_signal_state now s a sig c snap rsi bb reg market (mirror columns db)
        ≡ mirror columns (Sqlite.save_signal_state now s a sig c snap rsi bb reg market db)
  unfolding save_signal_state Sqlite.save_signal_state signal_row mirror
  state-mirror now s a sig c snap rsi bb reg (title, up_price) columns db =
      ap (λ rows. record (mirror columns db) { signal_state = rows })
        (upsert_state-eq _ db.signal_state)

  price-mirror :
      (now : ℕ) (asset : String) (x : F) (columns : Columns) (db : Database F)
      → record_price now asset x (mirror columns db)
        ≡ mirror columns (Sqlite.record_price now asset x db)
  unfolding record_price Sqlite.record_price mirror
  price-mirror now asset x columns db =
      let point : PricePoint F = record {
        id = next_id price_id db.price_history;
        timestamp = now;
        asset = asset;
        price = x;
      } in
      let rows = db.price_history ++ (point ∷ []) in
      let with : List (PricePoint F) → ℕ → PostgresDatabase F =
        λ kept i. record (mirror columns db) { price_history = record { rows = kept; next = i } } in
      ap (λ kept. with kept (suc point.id)) (prune-trim_prices asset rows)
      ∙ ap (with (trim_prices asset rows))
          (sym (next_id-trim_prices asset db.price_history point (le_refl _) refl))

  command-mirror :
      (c : Command F) (columns : Columns) (db : Database F)
      → takes_row columns ≡ true
      → command c (mirror columns db) ≡ mirror columns (write (on_sqlite columns c) db)
  unfolding command write mirror log_risk_event Sqlite.log_risk_event save_regime Sqlite.save_regime
      save_equity_snapshot Sqlite.save_equity_snapshot
  command-mirror (seed now ss assets x) columns db h = seed-mirror now ss assets x columns db
  command-mirror (fee s a x) columns db h = fee-mirror s a x columns db
  command-mirror (reserve now o) columns db h = ap (λ r. r.1) (reserve-mirror now o columns db h)
  command-mirror (resolve now i o p) columns db h = resolve-mirror now i o p columns db
  command-mirror (state now s a sig c snap rsi bb reg m) columns db h =
      state-mirror now s a sig c snap rsi bb reg m columns db
  command-mirror (price now a p) columns db h = price-mirror now a p columns db
  command-mirror (event now k s a d) columns db h = refl
  command-mirror (regime now a r x y z) columns db h = refl
  command-mirror (equity now s a b p n) columns db h = refl

  pub commands-mirror :
      (cs : List (Command F)) (columns : Columns) (db : Database F)
      → takes_row columns ≡ true
      → commands cs (mirror columns db) ≡ mirror columns (write_all (map (on_sqlite columns) cs) db)
  unfolding commands write_all
  commands-mirror [] columns db h = refl
  commands-mirror (c ∷ cs) columns db h =
      ap (commands cs) (command-mirror c columns db h)
      ∙ commands-mirror cs columns (write (on_sqlite columns c) db) h

-- ===== src/Storage/Postgres/Schema.antt =====
-- storage/postgres.py: a database whose tables its own schema has made.
use poly_market_prediction_b.Base.{
  ℕ, Bool, true, false, ◌≡◌, refl, inl, inr, Option, none, some, List, [], ◌∷◌, arith, Option-cases,
  if◌then◌else◌,
}
use poly_market_prediction_b.Base.Tables.{fetch_one}
use poly_market_prediction_b.Number.{Number}
use poly_market_prediction_b.Storage.{Bankroll, is_row_of}
use poly_market_prediction_b.Storage.Trades.{Order}
use poly_market_prediction_b.Storage.Postgres.{
  PostgresDatabase, replied, undefined_column, own_columns, takes_row, init_schema, seed_bankroll,
  deduct_fee, insert_row, reserve_and_insert_trade, resolve_trade,
}
use poly_market_prediction_b.Storage.Postgres.History.{
  save_signal_state, record_price, log_risk_event, save_regime, save_equity_snapshot,
}
use poly_market_prediction_b.Storage.Postgres.Commands.{
  Command, command, commands, seed, fee, reserve, resolve, state, price, event, regime, equity,
}

own_columns-takes_row : takes_row own_columns ≡ false
own_columns-takes_row = refl

module _ {F : Type 0} ⦃num : Number F⦄ where
  open num use {mul, lt}

  -- Whether the row of the account covers the order.
  abbrev pub covers : Order F → Option (Bankroll F) → Bool
  covers o none = false
  covers o (some row) = if lt row.current (mul o.entry_price o.bet_size) then false else true

  abbrev pub is_funded : Order F → PostgresDatabase F → Bool
  is_funded o db = covers o (fetch_one (is_row_of o.strategy o.asset) db.bankroll)

  -- The columns are those of the schema, and there are no trades.
  abbrev pub IsBare : PostgresDatabase F → Type 0
  IsBare db = (takes_row db.columns ≡ false) × (db.trades.rows ≡ [])

  -- An order that is covered raises, every other is refused, and either leaves the database.
  reserve-IsBare :
      (now : ℕ) (o : Order F) (db : PostgresDatabase F)
      → takes_row db.columns ≡ false
      → reserve_and_insert_trade now o db
        ≡ ((if is_funded o db then undefined_column else replied none), db)
  unfolding reserve_and_insert_trade insert_row
  reserve-IsBare now o db h =
      elim (Option-cases (fetch_one (is_row_of o.strategy o.asset) db.bankroll)) [
        | inl e ↦ ground (arith, e)
        | inr (row, e) ↦ ground (arith, e, h)
      ]

  command-IsBare : (c : Command F) (db : PostgresDatabase F) → IsBare db → IsBare (command c db)
  unfolding command seed_bankroll deduct_fee resolve_trade save_signal_state record_price
      log_risk_event save_regime save_equity_snapshot
  command-IsBare (seed now ss assets x) db h = h
  command-IsBare (fee s a x) db h = h
  command-IsBare (reserve now o) db (h, e) = ground (arith, reserve-IsBare now o db h)
  command-IsBare (resolve now i o p) db (h, e) = ground arith
  command-IsBare (state now s a sig c snap rsi bb reg m) db h = h
  command-IsBare (price now a p) db h = h
  command-IsBare (event now k s a d) db h = h
  command-IsBare (regime now a r x y z) db h = h
  command-IsBare (equity now s a b p n) db h = h

  commands-IsBare :
      (cs : List (Command F)) (db : PostgresDatabase F) → IsBare db → IsBare (commands cs db)
  unfolding commands
  commands-IsBare [] db h = h
  commands-IsBare (c ∷ cs) db h = commands-IsBare cs (command c db) (command-IsBare c db h)

  -- A PostgreSQL database whose tables its own schema has made holds no trade after any sequence of
  -- writes: a reservation that the balance covers raises, every other is refused, and the database
  -- is left as it is.
  pub reserve-init_schema :
      (cs : List (Command F)) (now : ℕ) (o : Order F)
      → let db = commands cs (init_schema none) in
        (db.trades.rows ≡ [])
        × (reserve_and_insert_trade now o db
            ≡ ((if is_funded o db then undefined_column else replied none), db))
  unfolding init_schema
  reserve-init_schema cs now o =
      let (h, e) = commands-IsBare cs (init_schema none) (own_columns-takes_row, refl) in
      (e, reserve-IsBare now o (commands cs (init_schema none)) h)

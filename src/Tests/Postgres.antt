-- ===== src/Tests/Postgres.antt =====
-- The PostgreSQL database at concrete inputs.
use mathlib.Core.List.Permᴰ
use poly_market_prediction_b.Base.{
  ◌≡◌, refl, none, List, [], ◌∷◌, ◌++◌, ◌==◌, string_eq, if◌then◌else◌,
}
use poly_market_prediction_b.Number.Integer.{pos}
use poly_market_prediction_b.Number.Fixed.{Fixed, fixed_number, times}
use poly_market_prediction_b.Core.Types.{Outcome}
use poly_market_prediction_b.Storage.Postgres.{
  Columns, trade_columns, init_schema, reserve_and_insert_trade, undefined_column, replied,
  seed_bankroll, seed_pairs, seed_pair, pairs_of, insert_row,
}
use poly_market_prediction_b.Storage.Postgres.Commands.{
  Command, command, commands, seed, reserve, resolve, price,
}
use poly_market_prediction_b.Storage.Postgres.Schema.{is_funded, reserve-init_schema}
use poly_market_prediction_b.Tests.Data.{order}

abbrev writes : List (Command Fixed)
writes =
    seed 1 ("MOMENTUM" ∷ []) ("BTC" ∷ "ETH" ∷ []) (pos 100_000_000)
    ∷ reserve 5 order
    ∷ price 6 "BTC" (pos 97_000_000)
    ∷ resolve 9 1 Outcome.win (pos 4_900_000)
    ∷ []

-- The columns of docker/postgres/init.sql,
-- and a normal form of the text.
abbrev full_columns : Columns
full_columns = record {
  names = trade_columns ++ ("indicators_json" ∷ []);
  as_stored = λ text. if text == "{}" then "{ }" else text;
}

reserve-init_schema_example :
    let db = commands writes (init_schema none) in
    (db.trades.rows ≡ [])
    × (reserve_and_insert_trade 12 order db
        ≡ ((if is_funded order db then undefined_column else replied none), db))
reserve-init_schema_example = reserve-init_schema writes 12 order

abbrev funding : Command Fixed
funding = seed 1 ("MOMENTUM" ∷ []) ("BTC" ∷ []) (pos 100_000_000)

raises_run :
    (reserve_and_insert_trade 5 order (commands (funding ∷ []) (init_schema none))).0
    ≡ undefined_column
unfolding reserve_and_insert_trade insert_row commands command seed_bankroll seed_pairs seed_pair
    pairs_of init_schema times
raises_run = refl

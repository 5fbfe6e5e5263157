-- ===== src/Tests/Storage.antt =====
-- The database at concrete inputs.
use poly_market_prediction_b.Number.Integer.{◌+ℤ◌}
use poly_market_prediction_b.Number.Fixed.{units}
use poly_market_prediction_b.Number.Integer.{◌+ℤ◌}
use poly_market_prediction_b.Number.Integer.{◌+ℤ◌}
use poly_market_prediction_b.Number.Fixed.{times}
use poly_market_prediction_b.Base.{◌≡◌, refl, some, List, [], ◌∷◌, string_eq, All}
use mathlib.Core.Option
use poly_market_prediction_b.Base.Tables.{fetch_one}
use poly_market_prediction_b.Core.Types.{Outcome}
use poly_market_prediction_b.Number.Integer.{pos}
use poly_market_prediction_b.Number.Fixed.{Fixed, fixed_number}
use poly_market_prediction_b.Number.Fixed.Laws.{Fixed-IsOrdered, Fixed-IsRounded, Fixed-IsExact}
use poly_market_prediction_b.Storage.{Trade, has_id}
use poly_market_prediction_b.Storage.Accounts.{get_bankroll}
use poly_market_prediction_b.Storage.Trades.{reserve_and_insert_trade, resolve_trade}
use poly_market_prediction_b.Storage.Queue.{move_to_dead_letter}
use poly_market_prediction_b.Storage.Invariant.{
  Write, reserve, resolve, fee, write_all, IsSound, IsSane,
}
use poly_market_prediction_b.Storage.Invariant.Preserved.{write_all-IsSound}
use poly_market_prediction_b.Storage.Ledger.{
  IsReserved, reserve-IsReserved, resolve-reserve, void-reserve,
}
use poly_market_prediction_b.Tests.Data.{order, funded}

reserved_first : (reserve_and_insert_trade 5 order funded).0 ≡ some 1
unfolding reserve_and_insert_trade times
reserved_first = refl

reserve-IsReserved_example : IsReserved 5 order 1 funded (reserve_and_insert_trade 5 order funded).1
reserve-IsReserved_example = reserve-IsReserved 5 order 1 funded reserved_first

resolve-reserve_example :
    get_bankroll "MOMENTUM" "BTC"
      (resolve_trade 9 1 Outcome.win (pos 4_900_000) (reserve_and_insert_trade 5 order funded).1)
    ≡ pos 104_900_000
unfolding get_bankroll ◌+ℤ◌
resolve-reserve_example =
    resolve-reserve Fixed-IsExact 5 9 1 order Outcome.win (pos 4_900_000) funded reserved_first

void-reserve_example :
    let db = move_to_dead_letter 1 "late" (reserve_and_insert_trade 5 order funded).1 in
    (get_bankroll "MOMENTUM" "BTC" db ≡ pos 95_000_000)
    × (Option.map (λ (t : Trade Fixed). t.pnl) (fetch_one (has_id 1) db.trades)
        ≡ some (some (pos 0)))
unfolding get_bankroll ◌+ℤ◌ units times
void-reserve_example = void-reserve 5 1 order "late" funded reserved_first

abbrev operations : List (Write Fixed)
operations =
    reserve 5 order
    ∷ fee "MOMENTUM" "BTC" (pos 2_000)
    ∷ resolve 9 1 Outcome.win (pos 4_900_000)
    ∷ []

funded-IsSound : IsSound funded
funded-IsSound = record { peaked = (refl, (refl, tt)); keyed = (refl, (refl, tt)); numbered = tt }

operations-IsSane : All IsSane operations
unfolding units
operations-IsSane = ((refl, refl), (refl, (tt, tt)))

write_all-IsSound_example : IsSound (write_all operations funded)
write_all-IsSound_example =
    write_all-IsSound Fixed-IsOrdered Fixed-IsRounded operations funded operations-IsSane
      funded-IsSound

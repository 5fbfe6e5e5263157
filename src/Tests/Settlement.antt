-- ===== src/Tests/Settlement.antt =====
-- A cycle of the resolver, and the steps of a reservation, at concrete inputs.
use poly_market_prediction_b.Execution.Resolver.{calculate_pnl}
use poly_market_prediction_b.Execution.Resolver.{settle}
use poly_market_prediction_b.Execution.Resolver.{infer_resolution}
use poly_market_prediction_b.Storage.Trades.{get_open_trades}
use poly_market_prediction_b.Base.{ℕ, ◌≡◌, refl, true, none, some, [], ◌∷◌, ◌++◌, map, List, select}
use poly_market_prediction_b.Core.Types.{Outcome}
use poly_market_prediction_b.Number.Integer.{pos, ◌+ℤ◌}
use poly_market_prediction_b.Number.Fixed.{Fixed, fixed_number, times, units}
use poly_market_prediction_b.Storage.{Database, Trade}
use poly_market_prediction_b.Storage.Accounts.{get_bankroll}
use poly_market_prediction_b.Storage.Trades.{resolve_trade, new_trade}
use poly_market_prediction_b.Storage.Interleave.{
  Shared, Steps, none_yet, and_then, Resolutions-lost,
}
use poly_market_prediction_b.Execution.Resolver.{State, Market, Json, resolve_cycle, resolution_of}
use poly_market_prediction_b.Execution.Resolver.Cycle.{settled_by}
use poly_market_prediction_b.Execution.Resolver.Once.{is_due, settle_each}
use mathlib.Core.List.Permᴰ.{Permᴰ}
use poly_market_prediction_b.Execution.Resolver.Settled.{resolve_cycle-settled_by}
use poly_market_prediction_b.Tests.Data.{order, account, with_trades}

-- One open trade.
abbrev reserved_once : Database Fixed
reserved_once = with_trades (new_trade 1 5 order ∷ [])

abbrev json : Json Fixed ℕ
json = record { as_text = λ v. none; loads = λ s. none; floats = λ v. none }

abbrev fetch_won : Market ℕ
fetch_won = record { resolution = some "1"; closed = true; outcome_prices = 0 }

abbrev before : State Fixed
before = record { db = reserved_once; resolved = []; dead_letters = [] }

resolve_cycle-settled_by_example :
    let res = resolution_of json (λ m. some fetch_won) in
    let after = resolve_cycle json (pos 20_000) (λ i. 9) (λ m. some fetch_won) before in
    (after.db.trades ≡ map (settled_by (pos 20_000) res) reserved_once.trades)
    × (order : List (Trade Fixed)) × Permᴰ order
        (select (is_due (pos 20_000) (λ i. 9) res) reserved_once.trades)
    × (after ≡ settle_each (pos 20_000) (λ i. 9) res order before)
resolve_cycle-settled_by_example =
    resolve_cycle-settled_by (pos 20_000) json (λ i. 9) (λ m. some fetch_won) before (refl, tt)

settled_run :
    map
      (λ (t : Trade Fixed). t.pnl)
      (resolve_cycle json (pos 20_000) (λ i. 9) (λ m. some fetch_won) before).db.trades
    ≡ some (pos 4_900_000) ∷ []
unfolding resolve_cycle get_open_trades new_trade infer_resolution settle resolve_trade
    calculate_pnl ◌+ℤ◌ units times
settled_run = refl

-- The trade is won while the next order has read the balance.
Resolutions-lost_example :
    (end : Shared Fixed) × Steps order (record { db = reserved_once; pending = none }) end
    × (get_bankroll "MOMENTUM" "BTC" end.db ≡ pos 95_000_000)
    × (end.db.trades
        ≡ (resolve_trade 9 1 Outcome.win (pos 4_900_000) reserved_once).trades
          ++ (new_trade 2 10 order ∷ []))
unfolding times ◌+ℤ◌ resolve_trade get_bankroll new_trade
Resolutions-lost_example =
    Resolutions-lost order (account "MOMENTUM" "BTC" 100) 10 refl refl
      (and_then 9 1 Outcome.win (pos 4_900_000) none_yet)

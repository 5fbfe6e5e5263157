-- ===== src/Tests/Execution.antt =====
-- The executor, the risk checks, the sizer and the resolver at concrete inputs.
use poly_market_prediction_b.Market.{window_elapsed_pct, elapsed_seconds, get_entry_price}
use poly_market_prediction_b.Number.Fixed.{round_to}
use poly_market_prediction_b.Number.{fmin, fmax}
use poly_market_prediction_b.Storage.Accounts.{deduct_fee}
use poly_market_prediction_b.Storage.Trades.{resolved_trades, get_open_trades, get_rolling_stats}
use poly_market_prediction_b.Execution.Window.{cleanup, window_key}
use poly_market_prediction_b.Execution.Executor.{has_open_on, slipped_price}
use poly_market_prediction_b.Number.Integer.{◌+ℤ◌}
use poly_market_prediction_b.Storage.Trades.{count_open_by_direction}
use poly_market_prediction_b.Storage.Accounts.{get_all_bankrolls}
use poly_market_prediction_b.Number.Fixed.{over}
use poly_market_prediction_b.Number.Integer.{◌+ℤ◌}
use poly_market_prediction_b.Storage.Accounts.{get_bankroll_peak}
use poly_market_prediction_b.Execution.Risk.{exceeds_drawdown}
use poly_market_prediction_b.Storage.Trades.{get_recent_outcomes}
use poly_market_prediction_b.Number.Fixed.{units}
use poly_market_prediction_b.Number.Fixed.{times}
use poly_market_prediction_b.Base.{
  ℕ, String, true, false, ◌≡◌, refl, some, [], ◌∷◌, arith, All, length,
}
use poly_market_prediction_b.Core.Types.{Signal, MarketInfo}
use poly_market_prediction_b.Number.Integer.{pos}
use poly_market_prediction_b.Number.Fixed.{Fixed, fixed_number}
use poly_market_prediction_b.Number.Fixed.Laws.{Fixed-IsOrdered, Fixed-IsRounded}
use poly_market_prediction_b.Storage.Trades.{reserve_and_insert_trade}
use poly_market_prediction_b.Storage.Accounts.{get_bankroll}
use poly_market_prediction_b.Execution.Sizer.{kelly_size}
use poly_market_prediction_b.Execution.Sizer.Bounds.{IsSized, kelly_size-IsSized}
use poly_market_prediction_b.Execution.Risk.{
  check_all, check_streak, check_circuit_breaker, check_correlation, check_drawdown,
  is_losing_streak,
}
use poly_market_prediction_b.Execution.Risk.Breaker.{check_all_lem, answers, answers_refuse}
use poly_market_prediction_b.Execution.Risk.Exposure.{check_correlation_few}
use poly_market_prediction_b.Execution.Window.{count, record_order, can_place}
use poly_market_prediction_b.Execution.Window.Limits.{IsLimited}
use poly_market_prediction_b.Execution.State.{World, go, skipped}
use poly_market_prediction_b.Execution.Executor.{execute}
use poly_market_prediction_b.Execution.Executor.Gate.{IsReady, IsPlaced, execute_places}
use poly_market_prediction_b.Execution.Executor.Skip.{IsUntouched, execute_skips}
use poly_market_prediction_b.Execution.Executor.Limits.{execute-IsLimited}
use poly_market_prediction_b.Tests.Data.{
  three_losses, risk_config, sizer_config, settings, strategy_config, signal, inputs, world,
}

kelly_size-IsSized_example :
    (size : Fixed) × (kelly_size sizer_config "MOMENTUM" "BTC" (pos 100_000_000) three_losses
      ≡ some size)
    × IsSized Fixed-IsOrdered Fixed-IsRounded sizer_config (pos 100_000_000) size
unfolding times units
kelly_size-IsSized_example =
    kelly_size-IsSized Fixed-IsOrdered Fixed-IsRounded sizer_config "MOMENTUM" "BTC"
      (pos 100_000_000) three_losses refl

losing : is_losing_streak risk_config "MOMENTUM" "BTC" three_losses ≡ true
unfolding is_losing_streak get_recent_outcomes
losing = refl

-- Asked at once, and again a day later.
answers_refuse_example :
    All
      (λ b. b ≡ false)
      (answers risk_config "MOMENTUM" "BTC"
        ((1, 1) ∷ (86_400_000_000, 86_400_000_000) ∷ [])
        ([], three_losses))
answers_refuse_example =
    answers_refuse risk_config "MOMENTUM" "BTC" ((1, 1) ∷ (86_400_000_000, 86_400_000_000) ∷ []) []
      three_losses losing

check_all_lem_example :
    let (allowed, _, db) = check_all risk_config 1 1 "MOMENTUM" "BTC" ([], three_losses) in
    (allowed ≡ false) × (length db.risk_events ≡ 1) × (db.trades ≡ three_losses.trades)
unfolding check_drawdown check_all exceeds_drawdown units get_bankroll_peak ◌+ℤ◌ get_bankroll over
    get_all_bankrolls check_correlation count_open_by_direction is_losing_streak
    check_circuit_breaker get_recent_outcomes
check_all_lem_example = check_all_lem risk_config 1 1 "MOMENTUM" "BTC" [] three_losses

check_correlation_few_example :
    check_correlation risk_config 1 "BTC" three_losses ≡ (true, three_losses)
check_correlation_few_example = check_correlation_few risk_config 1 "BTC" three_losses (omega arith)

abbrev two : String → String → ℕ
two s a = 2

none-IsLimited : IsLimited two []
unfolding IsLimited
none-IsLimited = tt

-- The world after a placed trade.
abbrev placed : World Fixed
placed =
    (execute settings inputs strategy_config false (pos 1_000_000) (signal Signal.buy_yes) world).1

execute_placed :
    execute settings inputs strategy_config false (pos 1_000_000) (signal Signal.buy_yes) world
    ≡ (go 1, placed)
unfolding execute get_bankroll units can_place count window_key window_elapsed_pct elapsed_seconds
    over check_all check_drawdown exceeds_drawdown get_bankroll_peak ◌+ℤ◌ get_all_bankrolls
    check_correlation count_open_by_direction check_circuit_breaker check_streak is_losing_streak
    get_recent_outcomes resolved_trades has_open_on get_open_trades slipped_price get_entry_price
    times kelly_size get_rolling_stats fmin fmax round_to reserve_and_insert_trade deduct_fee
    record_order cleanup
execute_placed = refl

execute_places_example :
    IsReady settings inputs strategy_config (signal Signal.buy_yes) world
    × ((market : MarketInfo Fixed) × (price : Fixed) × (size : Fixed) × IsPlaced settings inputs
          strategy_config false
          (pos 1_000_000)
          (signal Signal.buy_yes)
          world
          placed
          1
          market
          price
          size)
execute_places_example =
    execute_places settings inputs strategy_config false (pos 1_000_000) (signal Signal.buy_yes)
      world placed 1 execute_placed

execute-IsLimited_example : IsLimited two placed.counts
execute-IsLimited_example =
    execute-IsLimited two settings inputs strategy_config false (pos 1_000_000)
      (signal Signal.buy_yes) world placed 1 execute_placed refl refl none-IsLimited

-- A database in which the risk checks refuse.
abbrev losing_world : World Fixed
losing_world = record world { db = three_losses }

abbrev refused : World Fixed
refused =
    (execute settings inputs strategy_config false (pos 1_000_000) (signal Signal.buy_yes)
      losing_world).1

execute-refused :
    execute settings inputs strategy_config false
      (pos 1_000_000)
      (signal Signal.buy_yes)
      losing_world
    ≡ (skipped, refused)
unfolding execute get_bankroll units can_place count window_key window_elapsed_pct elapsed_seconds
    over check_all check_drawdown exceeds_drawdown get_bankroll_peak ◌+ℤ◌ get_all_bankrolls
    check_correlation count_open_by_direction check_circuit_breaker check_streak is_losing_streak
    get_recent_outcomes resolved_trades
execute-refused = refl

execute_skips_example : IsUntouched losing_world refused
execute_skips_example =
    execute_skips settings inputs strategy_config false (pos 1_000_000) (signal Signal.buy_yes)
      losing_world refused execute-refused

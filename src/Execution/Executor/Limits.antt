-- ===== src/Execution/Executor/Limits.antt =====
-- `Executor.execute`: a placed trade keeps the counts of the window within their limits.
use poly_market_prediction_b.Base.{ℕ, String, Bool, ◌≡◌}
use poly_market_prediction_b.Core.Types.{SignalResult, StrategyConfig}
use poly_market_prediction_b.Number.{Number}
use poly_market_prediction_b.Execution.State.{Inputs, Settings, World, go}
use poly_market_prediction_b.Execution.Window.{window_key, can_place, count}
use poly_market_prediction_b.Execution.Window.Limits.{IsLimited, record_order-IsLimited}
use poly_market_prediction_b.Execution.Executor.{execute}
use poly_market_prediction_b.Execution.Executor.Gate.{execute_places}

module _ {F : Type 0} ⦃num : Number F⦄ where
  -- Where the capacity is checked and the order recorded in the same window, a call that places a
  -- trade keeps every count within the limit that its strategy is configured with.
  pub execute-IsLimited :
      (limit : String → String → ℕ) (s : Settings F) (i : Inputs F) (cfg : StrategyConfig F)
      (scaling : Bool) (multiplier : F) (r : SignalResult F) (w w' : World F) (id : ℕ)
      → execute s i cfg scaling multiplier r w ≡ (go id, w')
      → cfg.max_orders_per_window ≡ limit r.strategy r.asset
      → window_key i.placed_at r.asset ≡ window_key i.recorded_at r.asset
      → IsLimited limit w.counts
      → IsLimited limit w'.counts
  unfolding can_place count
  execute-IsLimited limit s i cfg scaling multiplier r w w' id h e k bounded =
      let (ready, (market, price, size, placed)) =
        execute_places s i cfg scaling multiplier r w w' id h in
      rw (placed.counted) (
        record_order-IsLimited limit i.recorded_at i.cleaned_at r.strategy r.asset w.counts bounded
          (rw (e, k) at ready.capacity))

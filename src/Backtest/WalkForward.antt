-- ===== src/Backtest/WalkForward.antt =====
-- backtest/walk_forward.py: rolling windows of training and testing. The engine is the argument that it
-- is in the code. `whole` is Python's `int` of a number that is not negative. The dates are in order:
-- no window ends before it starts.
use poly_market_prediction_b.Base.{
  ℕ, zero, suc, ◌+◌, ◌-◌, ◌*◌, ◌/◌, List, [], ◌∷◌, ◌++◌, length, nat_beq, if◌then◌else◌,
}
use poly_market_prediction_b.Number.{Number, zero_f, of_ℕ, fmin, fabs}
use poly_market_prediction_b.Backtest.Models.{
  BacktestConfig, BacktestResult, SimulatedTrade, WalkForwardWindow, WalkForwardResult,
}
use poly_market_prediction_b.Backtest.Metrics.Compute.{Numpy, compute_metrics}

-- The verdicts of `interpret_overfitting_score`.
pub data Fit : Type 0 where
  robust acceptable warning overfit : Fit

module _ {F : Type 0} ⦃num : Number F⦄ where
  open num use {dec, add, mul, div, lt, eq, round}

  -- `config.start_date.replace(microsecond=0)`
  abbrev pub first_second : BacktestConfig F → ℕ
  first_second config = config.start_date / 1_000_000 * 1_000_000

  -- `window_start` of the window `idx` among `n`.
  unfoldable pub window_start : (F → ℕ) → BacktestConfig F → ℕ → ℕ → ℕ
  window_start whole config n idx =
      let total_seconds = dec (config.end_date - config.start_date) 6 in
      let window_seconds = div total_seconds (of_ℕ n) in
      first_second config + whole (mul (of_ℕ idx) window_seconds) * 1_000_000

  -- `window_end`, which is the end of the whole range for the last window.
  unfoldable pub window_end : (F → ℕ) → BacktestConfig F → ℕ → ℕ → ℕ
  unfolding window_start
  window_end whole config n idx =
      if nat_beq (idx + 1) n then config.end_date else window_start whole config n (idx + 1)

  unfoldable pub train_end : (F → ℕ) → BacktestConfig F → ℕ → ℕ → ℕ
  unfolding window_start window_end
  train_end whole config n idx =
      let start = window_start whole config n idx in
      let split_seconds = mul (dec (window_end whole config n idx - start) 6) config.train_ratio in
      start + whole split_seconds * 1_000_000

  abbrev pub slice_config : BacktestConfig F → ℕ → ℕ → BacktestConfig F
  slice_config base start end = record base { start_date = start; end_date = end }

  unfoldable pub walk_window :
      (BacktestConfig F → BacktestResult F)
      → (F → ℕ)
      → BacktestConfig F
      → ℕ
      → ℕ
      → WalkForwardWindow F × List (SimulatedTrade F)
  unfolding window_start window_end train_end
  walk_window engine whole config n idx =
      let start = window_start whole config n idx in
      let split = train_end whole config n idx in
      let end = window_end whole config n idx in
      let train = engine (slice_config config start split) in
      let test = engine (slice_config config split end) in
      (
        record {
          window_index = idx;
          train_start = start;
          train_end = split;
          test_start = split;
          test_end = end;
          in_sample = train.metrics;
          out_of_sample = test.metrics;
        },
        test.trades,
      )

  -- The loop, from the window `idx` on, with `left` windows to go.
  unfoldable pub walk_windows :
      (BacktestConfig F → BacktestResult F)
      → (F → ℕ)
      → BacktestConfig F
      → ℕ
      → ℕ
      → ℕ
      → List (WalkForwardWindow F) × List (SimulatedTrade F)
  unfolding walk_window
  walk_windows engine whole config n idx zero = ([], [])
  walk_windows engine whole config n idx (suc left) =
      let (w, trades) = walk_window engine whole config n idx in
      let (ws, more) = walk_windows engine whole config n (idx + 1) left in (w ∷ ws, trades ++ more)

  -- The ratio of a window; a Sharpe ratio of zero is replaced, so that nothing is divided by zero.
  abbrev pub sharpe_quotient : WalkForwardWindow F → F
  sharpe_quotient w =
      let oos = fabs w.out_of_sample.sharpe_ratio in
      div (fabs w.in_sample.sharpe_ratio) (if eq oos zero_f then dec 1 4 else oos)

  unfoldable pub sum_quotients : F → List (WalkForwardWindow F) → F
  sum_quotients acc [] = acc
  sum_quotients acc (w ∷ ws) = sum_quotients (add acc (sharpe_quotient w)) ws

  unfoldable pub compute_overfitting_score : List (WalkForwardWindow F) → F
  unfolding sum_quotients
  compute_overfitting_score [] = zero_f
  compute_overfitting_score (w ∷ ws) =
      fmin (div (sum_quotients zero_f (w ∷ ws)) (of_ℕ (length (w ∷ ws)))) (dec 99_999 2)

  unfoldable pub run_walk_forward :
      Numpy F
      → (F → ℕ)
      → ℕ
      → BacktestConfig F
      → (BacktestConfig F → BacktestResult F)
      → WalkForwardResult F
  unfolding walk_windows compute_overfitting_score
  run_walk_forward np whole num_windows config engine =
      let (windows, oos_trades) = walk_windows engine whole config num_windows 0 num_windows in
      record {
        config = config;
        windows = windows;
        aggregated_oos = compute_metrics np oos_trades config.initial_bankroll;
        overfitting_score = round 4 (compute_overfitting_score windows);
      }

  unfoldable pub interpret_overfitting_score : F → Fit
  interpret_overfitting_score score =
      if lt score (dec 15 1)
      then Fit.robust
      else if lt score (of_ℕ 2)
      then Fit.acceptable
      else if lt score (of_ℕ 3)
      then Fit.warning
      else Fit.overfit

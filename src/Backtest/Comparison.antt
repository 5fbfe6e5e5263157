-- ===== src/Backtest/Comparison.antt =====
-- backtest/comparison.py: the scores of the strategies and their ranks. The CSV export is left out.
pub mod Statistics
pub mod Ranking
use poly_market_prediction_b.Base.{
  ℕ, ◌+◌, String, false, Option, none, some, List, [], ◌∷◌, map, if◌then◌else◌, get_or,
}
use poly_market_prediction_b.Number.{Number, zero_f, one_f, of_ℕ, fmax, fmin}
use poly_market_prediction_b.Backtest.Models.{
  SimulatedTrade, PerformanceMetrics, BacktestResult, WalkForwardResult, MonteCarloResult,
}
use poly_market_prediction_b.Backtest.Metrics.Compute.{Numpy}
use poly_market_prediction_b.Backtest.Comparison.Statistics.{
  ChiSquare, wilson_ci, mean_ci, chi_square_win_rates,
}

-- `FullBacktestReport`
pub record FullBacktestReport (F : Type 0) : Type 0 where
  pub backtest : BacktestResult F
  pub walk_forward : Option (WalkForwardResult F)
  pub monte_carlo : Option (MonteCarloResult F)

pub record StrategyScore (F : Type 0) : Type 0 where
  pub rank : ℕ
  pub strategy : String
  pub asset : String
  pub sharpe : F
  pub sortino : F
  pub win_rate : F
  pub total_pnl : F
  pub profit_factor : F
  pub max_drawdown_pct : F
  pub total_trades : ℕ
  pub expectancy : F
  pub win_rate_ci : F × F
  pub pnl_per_trade_ci : F × F
  pub mc_prob_profit : Option F
  pub mc_prob_ruin : Option F
  pub mc_median_sharpe : Option F
  pub wf_overfitting_score : Option F
  pub wf_oos_sharpe : Option F
  pub composite_score : F

pub record ComparisonResult (F : Type 0) : Type 0 where
  pub scores : List (StrategyScore F)
  pub chi_square : ChiSquare F

module _ {F : Type 0} ⦃num : Number F⦄ where
  open num use {dec, add, sub, mul, div, lt, round}

  -- A Sharpe ratio brought from [-2, 4] to [0, 1].
  abbrev pub sharpe_norm : F → F
  sharpe_norm x = fmax zero_f (fmin one_f (div (add x (of_ℕ 2)) (of_ℕ 6)))

  unfoldable pub composite_score : PerformanceMetrics F → Option F → Option F → F
  composite_score m mc_prob_profit wf_oos_sharpe =
      let pf_norm = div (fmin m.profit_factor (of_ℕ 5)) (of_ℕ 5) in
      let mc_norm = get_or mc_prob_profit m.win_rate in
      let wf_norm = sharpe_norm (get_or wf_oos_sharpe m.sharpe_ratio) in
      let rf_norm = div (fmin m.recovery_factor (of_ℕ 10)) (of_ℕ 10) in
      let sharpe_part = mul (dec 30 2) (sharpe_norm m.sharpe_ratio) in
      let with_pf = add sharpe_part (mul (dec 20 2) pf_norm) in
      let with_wr = add with_pf (mul (dec 15 2) m.win_rate) in
      let with_mc = add with_wr (mul (dec 15 2) mc_norm) in
      let with_wf = add with_mc (mul (dec 10 2) wf_norm) in
      round 4 (add with_wf (mul (dec 10 2) rf_norm))

  abbrev pub on_some : {A : Type 0} → (A → F) → Option A → Option F
  on_some f none = none
  on_some f (some a) = some (f a)

  -- The entry of a report, with the rank 0.
  unfoldable pub score_of : Numpy F → (F → F) → FullBacktestReport F → StrategyScore F
  unfolding wilson_ci mean_ci composite_score
  score_of np sqrt report =
      let m = report.backtest.metrics in
      let cfg = report.backtest.config in
      let mc_prob_profit =
        on_some (λ (mc : MonteCarloResult F). mc.prob_profit) report.monte_carlo in
      let wf_oos_sharpe =
        on_some (λ (wf : WalkForwardResult F). wf.aggregated_oos.sharpe_ratio)
          report.walk_forward in
      record {
        rank = 0;
        strategy = cfg.strategy;
        asset = cfg.asset;
        sharpe = m.sharpe_ratio;
        sortino = m.sortino_ratio;
        win_rate = m.win_rate;
        total_pnl = m.total_pnl;
        profit_factor = m.profit_factor;
        max_drawdown_pct = m.max_drawdown_pct;
        total_trades = m.total_trades;
        expectancy = m.expectancy;
        win_rate_ci = wilson_ci sqrt m.wins m.total_trades;
        pnl_per_trade_ci =
            mean_ci np sqrt (map (λ (t : SimulatedTrade F). t.pnl) report.backtest.trades);
        mc_prob_profit = mc_prob_profit;
        mc_prob_ruin = on_some (λ (mc : MonteCarloResult F). mc.prob_ruin) report.monte_carlo;
        mc_median_sharpe =
            on_some (λ (mc : MonteCarloResult F). mc.median_sharpe) report.monte_carlo;
        wf_overfitting_score =
            on_some (λ (wf : WalkForwardResult F). wf.overfitting_score) report.walk_forward;
        wf_oos_sharpe = wf_oos_sharpe;
        composite_score = composite_score m mc_prob_profit wf_oos_sharpe;
      }

  -- `scores.sort(key=composite_score, reverse=True)`, which is stable, by insertion.
  abbrev pub insert_score : StrategyScore F → List (StrategyScore F) → List (StrategyScore F)
  insert_score s [] = s ∷ []
  insert_score s (t ∷ ts) =
      if lt s.composite_score t.composite_score then t ∷ insert_score s ts else s ∷ t ∷ ts

  abbrev pub sort_scores : List (StrategyScore F) → List (StrategyScore F)
  sort_scores [] = []
  sort_scores (s ∷ ss) = insert_score s (sort_scores ss)

  -- The ranks, from the index `i` on.
  abbrev pub assign_ranks : ℕ → List (StrategyScore F) → List (StrategyScore F)
  assign_ranks i [] = []
  assign_ranks i (s ∷ ss) = record s { rank = i + 1 } ∷ assign_ranks (i + 1) ss

  unfoldable pub compare_strategies :
      Numpy F → (F → F) → List (FullBacktestReport F) → ComparisonResult F
  unfolding score_of chi_square_win_rates
  compare_strategies np sqrt [] = record {
    scores = [];
    chi_square = record { statistic = zero_f; df = 0; critical = zero_f; is_significant = false };
  }
  compare_strategies np sqrt (report ∷ reports) =
      let scores = assign_ranks 0 (sort_scores (map (score_of np sqrt) (report ∷ reports))) in
      let chi =
        chi_square_win_rates (map (λ (s : StrategyScore F). (s.win_rate, s.total_trades)) scores) in
      record { scores = scores; chi_square = record chi { statistic = round 4 chi.statistic } }

-- ===== src/Tests/Comparison.antt =====
-- The comparison of strategies at concrete inputs.
use mathlib.Core.List.Permᴰ.{Permᴰ}
use poly_market_prediction_b.Base.{◌≡◌, none, List, [], ◌∷◌, map, length, ℕ, ◌*◌}
use poly_market_prediction_b.Number.Integer.{pos}
use poly_market_prediction_b.Number.Fixed.{Fixed, fixed_number}
use poly_market_prediction_b.Number.Fixed.Laws.{Fixed-IsOrdered}
use poly_market_prediction_b.Backtest.MonteCarlo.{range_from}
use poly_market_prediction_b.Backtest.Comparison.{
  FullBacktestReport, StrategyScore, compare_strategies, score_of,
}
use poly_market_prediction_b.Backtest.Comparison.Ranking.{
  IsDescending, unranked, compare_strategies_ranks,
}
use poly_market_prediction_b.Tests.Backtest.{config, np, no_trades}

-- A report with a win rate, in thousandths.
abbrev report : ℕ → FullBacktestReport Fixed
report n =
    let result = no_trades config in
    record {
      backtest = record result { metrics = record result.metrics { win_rate = pos (n * 1_000) } };
      walk_forward = none;
      monte_carlo = none;
    }

abbrev reports : List (FullBacktestReport Fixed)
reports = report 500 ∷ report 700 ∷ report 600 ∷ []

compare_strategies_ranks_example :
    let scores = (compare_strategies np (λ x. x) reports).scores in
    Permᴰ (map unranked scores) (map (score_of np (λ x. x)) reports)
    × IsDescending scores
    × (map (λ (s : StrategyScore Fixed). s.rank) scores ≡ range_from 1 (length reports))
compare_strategies_ranks_example = compare_strategies_ranks Fixed-IsOrdered np (λ x. x) reports

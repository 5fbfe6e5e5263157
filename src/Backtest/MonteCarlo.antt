-- ===== src/Backtest/MonteCarlo.antt =====
-- backtest/monte_carlo.py: the trades are replayed in shuffled orders. A shuffle takes the list of
-- indices to the list that `rng.shuffle` leaves in that iteration.
pub mod Orders
use poly_market_prediction_b.Base.{
  ℕ, zero, suc, ◌-◌, Bool, List, [], ◌∷◌, ◌++◌, map, length, select, ltb, nat_beq, if◌then◌else◌,
  ◌&&◌,
}
use poly_market_prediction_b.Number.{Number, zero_f, one_f, of_ℕ}
use poly_market_prediction_b.Backtest.Models.{BacktestConfig, SimulatedTrade, MonteCarloResult}
use poly_market_prediction_b.Backtest.Metrics.Compute.{Numpy, sharpe_ratio}

-- `list(range(n))`, from `i` on.
unfoldable pub range_from : ℕ → ℕ → List ℕ
range_from i zero = []
range_from i (suc n) = i ∷ range_from (suc i) n

-- `xs[i]`, with a default that no index of the list meets.
unfoldable pub at_index : {A : Type 0} → A → List A → ℕ → A
at_index d [] i = d
at_index d (x ∷ xs) zero = x
at_index d (x ∷ xs) (suc i) = at_index d xs i

-- The variables of the inner loop.
pub record Course (F : Type 0) : Type 0 where
  pub equity : F
  pub peak : F
  pub max_dd : F

-- What the iterations have gathered.
pub record Gathered (F : Type 0) : Type 0 where
  pub final_equities : List F
  pub max_drawdowns : List F
  pub sharpe_ratios : List F

module _ {F : Type 0} ⦃num : Number F⦄ where
  open num use {dec, add, sub, mul, div, lt, le, round}

  unfoldable pub walk_step : F → Course F → Course F
  walk_step pnl c =
      let equity = add c.equity pnl in
      let peak = if lt c.peak equity then equity else c.peak in
      let dd = sub peak equity in
      record { equity = equity; peak = peak; max_dd = if lt c.max_dd dd then dd else c.max_dd }

  unfoldable pub walk : Course F → List F → Course F
  unfolding walk_step
  walk c [] = c
  walk c (pnl ∷ pnls) = walk (walk_step pnl c) pnls

  abbrev pub course : F → Course F
  course initial = record { equity = initial; peak = initial; max_dd = zero_f }

  -- The return of a trade on its cost, of which one that is not positive counts as one.
  abbrev pub base_return : SimulatedTrade F → F
  base_return t =
      let cost = mul t.entry_price t.bet_size in div t.pnl (if lt zero_f cost then cost else one_f)

  -- The P&L values in the order of an iteration.
  abbrev pub shuffled_pnls : List (SimulatedTrade F) → List ℕ → List F
  shuffled_pnls trades = map (at_index zero_f (map (λ (t : SimulatedTrade F). t.pnl) trades))

  -- The iterations, the last one first: each gets its number.
  unfoldable pub iterations :
      Numpy F → (ℕ → List ℕ → List ℕ) → List (SimulatedTrade F) → F → ℕ → Gathered F
  unfolding walk range_from
  iterations np shuffle trades initial zero = record {
    final_equities = [];
    max_drawdowns = [];
    sharpe_ratios = [];
  }
  iterations np shuffle trades initial (suc k) =
      let g = iterations np shuffle trades initial k in
      let indices = shuffle k (range_from 0 (length trades)) in
      let c = walk (course initial) (shuffled_pnls trades indices) in
      record {
        final_equities = g.final_equities ++ (c.equity ∷ []);
        max_drawdowns = g.max_drawdowns ++ (c.max_dd ∷ []);
        sharpe_ratios =
            g.sharpe_ratios
            ++ (sharpe_ratio np (map (at_index zero_f (map base_return trades)) indices) ∷ []);
      }

  -- `np.mean` of an array of tests.
  abbrev pub share_of : (F → Bool) → List F → F
  share_of test xs = div (of_ℕ (length (select test xs))) (of_ℕ (length xs))

  -- `eq_arr > initial` and `eq_arr < ruin_threshold`, for one equity.
  abbrev pub is_profit : F → F → Bool
  is_profit initial equity = lt initial equity

  abbrev pub is_ruin : F → F → Bool
  is_ruin initial equity = lt equity (mul initial (dec 10 2))

  -- At least one iteration is configured.
  unfoldable pub run_monte_carlo :
      Numpy F
      → (ℕ → List ℕ → List ℕ)
      → List (SimulatedTrade F)
      → BacktestConfig F
      → MonteCarloResult F
  unfolding iterations
  run_monte_carlo np shuffle trades config =
      let initial = config.initial_bankroll in
      let g = iterations np shuffle trades initial config.mc_iterations in
      if ltb (length trades) 2
      then record {
        iterations = 0;
        confidence_level = config.mc_confidence;
        median_final_equity = zero_f;
        p5_final_equity = zero_f;
        p95_final_equity = zero_f;
        median_max_drawdown = zero_f;
        p95_max_drawdown = zero_f;
        median_sharpe = zero_f;
        p5_sharpe = zero_f;
        p95_sharpe = zero_f;
        prob_profit = zero_f;
        prob_ruin = zero_f;
      }
      else record {
        iterations = config.mc_iterations;
        confidence_level = config.mc_confidence;
        median_final_equity = round 4 (np.percentile 50 g.final_equities);
        p5_final_equity = round 4 (np.percentile 5 g.final_equities);
        p95_final_equity = round 4 (np.percentile 95 g.final_equities);
        median_max_drawdown = round 4 (np.percentile 50 g.max_drawdowns);
        p95_max_drawdown = round 4 (np.percentile 95 g.max_drawdowns);
        median_sharpe = round 4 (np.percentile 50 g.sharpe_ratios);
        p5_sharpe = round 4 (np.percentile 5 g.sharpe_ratios);
        p95_sharpe = round 4 (np.percentile 95 g.sharpe_ratios);
        prob_profit = round 4 (share_of (is_profit initial) g.final_equities);
        prob_ruin = round 4 (share_of (is_ruin initial) g.final_equities);
      }

-- `interpret_monte_carlo`, its verdict alone.
pub data Verdict : Type 0 where
  go no_go_ruin no_go_loss marginal : Verdict

module _ {F : Type 0} ⦃num : Number F⦄ where
  open num use {dec, lt, le}

  unfoldable pub interpret_monte_carlo : MonteCarloResult F → Verdict
  interpret_monte_carlo r =
      if le (dec 65 2) r.prob_profit && le r.prob_ruin (dec 5 2)
      then Verdict.go
      else if lt (dec 20 2) r.prob_ruin
      then Verdict.no_go_ruin
      else if lt r.prob_profit (dec 50 2)
      then Verdict.no_go_loss
      else Verdict.marginal

-- ===== src/Backtest/Metrics/Compute.antt =====
-- backtest/metrics.py: the ratios, and all metrics together. `mean`, `std` (with one degree of freedom
-- taken off) and `percentile` of numpy are parameters.
use poly_market_prediction_b.Base.{
  ℕ, not, List, [], ◌∷◌, map, length, select, ltb, nat_beq, if◌then◌else◌,
}
use poly_market_prediction_b.Number.{Number, zero_f, one_f, of_ℕ, fabs}
use poly_market_prediction_b.Backtest.Models.{has_won, SimulatedTrade, PerformanceMetrics}
use poly_market_prediction_b.Backtest.Metrics.{
  build_equity_curve, max_drawdown, consecutive_streaks,
}

pub record Numpy (F : Type 0) : Type 0 where
  pub mean : List F → F
  pub std : List F → F
  pub percentile : ℕ → List F → F

module _ {F : Type 0} ⦃num : Number F⦄ where
  open num use {dec, add, sub, mul, div, lt, eq, round}

  -- The return of a trade on its cost, zero where there is no cost.
  abbrev pub trade_return : SimulatedTrade F → F
  trade_return t =
      let cost = mul t.entry_price t.bet_size in if lt zero_f cost then div t.pnl cost else zero_f

  unfoldable pub trade_returns : List (SimulatedTrade F) → List F
  trade_returns = map trade_return

  unfoldable pub sharpe_ratio : Numpy F → List F → F
  sharpe_ratio np returns =
      let excess = map (λ r. sub r zero_f) returns in
      let std = np.std excess in
      if ltb (length returns) 2
      then zero_f
      else if eq std zero_f
      then zero_f
      else div (np.mean excess) std

  unfoldable pub sortino_ratio : Numpy F → List F → F
  sortino_ratio np returns =
      let excess = map (λ r. sub r zero_f) returns in
      let downside = select (λ r. lt r zero_f) excess in
      let downside_std = np.std downside in
      if ltb (length returns) 2
      then zero_f
      else if nat_beq (length downside) 0
      then div (np.mean excess) (dec 1 4)
      else if eq downside_std zero_f
      then zero_f
      else div (np.mean excess) downside_std

  -- `sum(t.pnl for t in trades)`
  unfoldable pub sum_pnl : F → List (SimulatedTrade F) → F
  sum_pnl acc [] = acc
  sum_pnl acc (t ∷ ts) = sum_pnl (add acc t.pnl) ts

  abbrev pub wins_in : List (SimulatedTrade F) → List (SimulatedTrade F)
  wins_in = select (λ (t : SimulatedTrade F). has_won t.exit_outcome)

  abbrev pub losses_in : List (SimulatedTrade F) → List (SimulatedTrade F)
  losses_in = select (λ (t : SimulatedTrade F). not (has_won t.exit_outcome))

  -- `x / n if n else 0.0`
  abbrev pub per : F → ℕ → F
  per x n = if nat_beq n 0 then zero_f else div x (of_ℕ n)

  -- `x / y`, or 999.99 for the infinity at a `y` that is not positive; rounded.
  abbrev pub capped_ratio : F → F → F
  capped_ratio x y = if lt zero_f y then round 4 (div x y) else dec 99_999 2

  -- The last equity of the curve.
  unfoldable pub last_of : F → List F → F
  last_of x [] = x
  last_of x (y ∷ ys) = last_of y ys

  abbrev pub no_metrics : F → PerformanceMetrics F
  no_metrics initial_bankroll = record {
    total_trades = 0;
    wins = 0;
    losses = 0;
    win_rate = zero_f;
    total_pnl = zero_f;
    avg_pnl_per_trade = zero_f;
    gross_profit = zero_f;
    gross_loss = zero_f;
    profit_factor = zero_f;
    sharpe_ratio = zero_f;
    sortino_ratio = zero_f;
    max_drawdown = zero_f;
    max_drawdown_pct = zero_f;
    recovery_factor = zero_f;
    avg_win = zero_f;
    avg_loss = zero_f;
    max_consecutive_wins = 0;
    max_consecutive_losses = 0;
    expectancy = zero_f;
    final_bankroll = initial_bankroll;
  }

  unfoldable pub compute_metrics : Numpy F → List (SimulatedTrade F) → F → PerformanceMetrics F
  unfolding sum_pnl build_equity_curve max_drawdown trade_returns sharpe_ratio sortino_ratio last_of
      consecutive_streaks
  compute_metrics np [] initial_bankroll = no_metrics initial_bankroll
  compute_metrics np (t ∷ ts) initial_bankroll =
      let trades = t ∷ ts in
      let n = length trades in
      let n_wins = length (wins_in trades) in
      let n_losses = length (losses_in trades) in
      let rate = per (of_ℕ n_wins) n in
      let profit = sum_pnl zero_f (wins_in trades) in
      let loss = fabs (sum_pnl zero_f (losses_in trades)) in
      let total = sub profit loss in
      let average_win = per profit n_wins in
      let average_loss = per loss n_losses in
      let curve = build_equity_curve trades initial_bankroll in
      let (max_dd, max_dd_pct) = max_drawdown curve in
      let returns = trade_returns trades in
      let (won, lost) = consecutive_streaks trades in
      record {
        total_trades = n;
        wins = n_wins;
        losses = n_losses;
        win_rate = round 4 rate;
        total_pnl = round 4 total;
        avg_pnl_per_trade = round 4 (per total n);
        gross_profit = round 4 profit;
        gross_loss = round 4 loss;
        profit_factor = capped_ratio profit loss;
        sharpe_ratio = round 4 (sharpe_ratio np returns);
        sortino_ratio = round 4 (sortino_ratio np returns);
        max_drawdown = round 4 max_dd;
        max_drawdown_pct = round 4 max_dd_pct;
        recovery_factor = capped_ratio total max_dd;
        avg_win = round 4 average_win;
        avg_loss = round 4 average_loss;
        max_consecutive_wins = won;
        max_consecutive_losses = lost;
        expectancy = round 4 (sub (mul average_win rate) (mul average_loss (sub one_f rate)));
        final_bankroll = round 4 (last_of initial_bankroll curve);
      }

-- ===== src/Tests/Backtest.antt =====
-- The backtest engine, its metrics and the Monte Carlo runs at concrete inputs.
use poly_market_prediction_b.Backtest.Metrics.{nat_max}
use poly_market_prediction_b.Number.Integer.{◌+ℤ◌}
use poly_market_prediction_b.Number.Fixed.{units}
use mathlib.Core.List.{reverse}
use mathlib.Core.List.Permᴰ
use poly_market_prediction_b.Base.{
  ℕ, ◌*◌, ◌/◌, ◌≤◌, true, false, ◌≡◌, refl, none, some, List, [], ◌∷◌, arith, length, All,
}
use poly_market_prediction_b.Core.Types.{Signal}
use poly_market_prediction_b.Number.Integer.{pos, negsuc}
use poly_market_prediction_b.Number.Fixed.{Fixed, fixed_number}
use poly_market_prediction_b.Number.Fixed.Laws.{Fixed-IsOrdered, Fixed-IsRounded, Fixed-IsExact}
use poly_market_prediction_b.Strategies.Base.{result}
use poly_market_prediction_b.Backtest.Models.{ExitOutcome, BacktestConfig, SimulatedTrade}
use poly_market_prediction_b.Backtest.Engine.{BaseStrategy, Bar}
use poly_market_prediction_b.Backtest.Engine.Loops.{
  DbRecord, replay_snapshots, simulate_from_db_records, is_low,
}
use poly_market_prediction_b.Backtest.Engine.Safe.{
  Books, Replayed, replay_snapshots-Books, simulate_from_db_records-Books,
}
use poly_market_prediction_b.Backtest.Metrics.{consecutive_streaks}
use poly_market_prediction_b.Backtest.Metrics.Compute.{Numpy, sum_pnl}
use poly_market_prediction_b.Backtest.MonteCarlo.{run_monte_carlo, iterations, walk, course}
use poly_market_prediction_b.Backtest.MonteCarlo.Orders.{IsNoneOrAll, run_monte_carlo_degenerate}
use poly_market_prediction_b.Tests.Data.{snapshot}
use poly_market_prediction_b.Backtest.Models.{BacktestResult}
use poly_market_prediction_b.Backtest.Metrics.Compute.{no_metrics}
use poly_market_prediction_b.Backtest.WalkForward.{window_start, window_end, train_end}
use poly_market_prediction_b.Number.Fixed.{times, over}

abbrev pub config : BacktestConfig Fixed
config = record {
  strategy = "MOMENTUM";
  asset = "BTC";
  start_date = 0;
  end_date = 86_400_000_000;
  initial_bankroll = pos 40_000_000;
  slippage_bps = pos 50_000_000;
  commission_pct = pos 20_000;
  gas_per_trade = pos 10_000;
  kelly_fraction = pos 333_333;
  use_kelly = true;
  train_ratio = pos 700_000;
  mc_iterations = 3;
  mc_confidence = pos 950_000;
}

abbrev bar : ℕ → Bar Fixed
bar price = record {
  ts = price;
  snap = record snapshot { last_price = pos (price * 1_000_000) };
  rsi = none;
  bb = none;
}

-- A strategy that always buys.
abbrev buyer : BaseStrategy Fixed
buyer = record {
  evaluate = λ asset snap rsi bb.
      some (result "MOMENTUM" Signal.buy_yes (pos 800_000) asset snap (("rsi", none) ∷ []));
  entry_ok = λ asset signal price. true;
}

abbrev db_record : DbRecord Fixed
db_record = record {
  timestamp = none;
  signal = "BUY_NO";
  entry_price = pos 400_000;
  outcome = "LOSS";
  confidence = pos 700_000;
  indicators = [];
}

abbrev void_record : DbRecord Fixed
void_record = record db_record { outcome = "VOID" }

abbrev simulated : ExitOutcome → ℕ → SimulatedTrade Fixed
simulated outcome i = record {
  timestamp = i;
  signal = Signal.buy_yes;
  entry_price = pos 500_000;
  exit_outcome = outcome;
  bet_size = pos 1_000_000;
  pnl = (elim outcome [ ExitOutcome.win ↦ pos 980_000 | ExitOutcome.loss ↦ negsuc 1_009_999 ]);
  confidence = pos 800_000;
  bankroll_after = pos 40_000_000;
  indicators = [];
}

abbrev three_trades : List (SimulatedTrade Fixed)
three_trades =
    simulated ExitOutcome.win 1 ∷ simulated ExitOutcome.win 2 ∷ simulated ExitOutcome.loss 3 ∷ []

abbrev pub np : Numpy Fixed
np = record { mean = λ xs. pos 0; std = λ xs. pos 0; percentile = λ k xs. pos 0 }

replay_snapshots-Books_example :
    (trades : List (SimulatedTrade Fixed)) × (replay_snapshots config buyer
        (bar 100 ∷ bar 101 ∷ bar 99 ∷ [])
      ≡ some trades)
    × Books (λ b. is_low config b ≡ false) (pos 40_000_000) trades
    × (length trades ≤ 2)
replay_snapshots-Books_example =
    replay_snapshots-Books Fixed-IsOrdered Fixed-IsRounded config buyer
      (bar 100 ∷ bar 101 ∷ bar 99 ∷ []) (λ asset snap rsi bb. refl)

simulate_from_db_records-Books_example :
    (trades : List (SimulatedTrade Fixed)) × (simulate_from_db_records config 7
        (db_record ∷ void_record ∷ [])
      ≡ some trades)
    × Books (λ _. Unit) (pos 40_000_000) trades
    × Replayed (db_record ∷ void_record ∷ []) trades
simulate_from_db_records-Books_example =
    simulate_from_db_records-Books Fixed-IsOrdered Fixed-IsRounded config 7
      (db_record ∷ void_record ∷ [])

streaks_run : consecutive_streaks three_trades ≡ (2, 1)
unfolding consecutive_streaks nat_max
streaks_run = refl

drawdown_run : (walk (course (pos 40)) (pos 3 ∷ negsuc 4 ∷ pos 1 ∷ [])).max_dd ≡ pos 5
unfolding walk units ◌+ℤ◌
drawdown_run = refl

run_monte_carlo_degenerate_example :
    All
      (λ e. e ≡ sum_pnl (pos 40_000_000) three_trades)
      (iterations np (λ k. reverse) three_trades (pos 40_000_000) 3).final_equities
    × IsNoneOrAll 3 (run_monte_carlo np (λ k. reverse) three_trades config).prob_profit
    × IsNoneOrAll 3 (run_monte_carlo np (λ k. reverse) three_trades config).prob_ruin
run_monte_carlo_degenerate_example =
    run_monte_carlo_degenerate Fixed-IsExact np (λ k. reverse) three_trades config
      (λ k l. Permᴰ.reverse l) (ground arith)

-- An engine without trades.
abbrev pub no_trades : BacktestConfig Fixed → BacktestResult Fixed
no_trades c = record {
  config = c;
  metrics = no_metrics c.initial_bankroll;
  trades = [];
  equity_curve = [];
  drawdown_curve = [];
  timestamps = [];
}

-- `int`
abbrev whole : Fixed → ℕ
whole (pos n) = n / 1_000_000
whole (negsuc n) = 0

-- Half a day each, with seven tenths of it for the training.
train_end_run : train_end whole config 2 1 ≡ 73_440_000_000
unfolding train_end window_start window_end times units over
train_end_run = refl

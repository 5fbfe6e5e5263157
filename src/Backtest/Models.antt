-- ===== src/Backtest/Models.antt =====
-- backtest/models.py: the records of the backtests. Times are microseconds since the epoch.
use poly_market_prediction_b.Base.{ℕ, String, Bool, List}
use poly_market_prediction_b.Core.Types.{Signal, Indicators}

-- `Literal["WIN", "LOSS"]`
pub data ExitOutcome : Type 0 where
  win loss : ExitOutcome

-- `exit_outcome == "WIN"`
abbrev pub has_won : ExitOutcome → Bool
has_won ExitOutcome.win = Bool.true
has_won ExitOutcome.loss = Bool.false

pub record BacktestConfig (F : Type 0) : Type 0 where
  pub strategy : String
  pub asset : String
  pub start_date : ℕ
  pub end_date : ℕ
  pub initial_bankroll : F
  pub slippage_bps : F
  pub commission_pct : F
  pub gas_per_trade : F
  pub kelly_fraction : F
  pub use_kelly : Bool
  pub train_ratio : F
  pub mc_iterations : ℕ
  pub mc_confidence : F

pub record SimulatedTrade (F : Type 0) : Type 0 where
  pub timestamp : ℕ
  pub signal : Signal
  pub entry_price : F
  pub exit_outcome : ExitOutcome
  pub bet_size : F
  pub pnl : F
  pub confidence : F
  pub bankroll_after : F
  pub indicators : Indicators F

pub record PerformanceMetrics (F : Type 0) : Type 0 where
  pub total_trades : ℕ
  pub wins : ℕ
  pub losses : ℕ
  pub win_rate : F
  pub total_pnl : F
  pub avg_pnl_per_trade : F
  pub gross_profit : F
  pub gross_loss : F
  pub profit_factor : F
  pub sharpe_ratio : F
  pub sortino_ratio : F
  pub max_drawdown : F
  pub max_drawdown_pct : F
  pub recovery_factor : F
  pub avg_win : F
  pub avg_loss : F
  pub max_consecutive_wins : ℕ
  pub max_consecutive_losses : ℕ
  pub expectancy : F
  pub final_bankroll : F

pub record BacktestResult (F : Type 0) : Type 0 where
  pub config : BacktestConfig F
  pub metrics : PerformanceMetrics F
  pub trades : List (SimulatedTrade F)
  pub equity_curve : List F
  pub drawdown_curve : List F
  pub timestamps : List ℕ

pub record WalkForwardWindow (F : Type 0) : Type 0 where
  pub window_index : ℕ
  pub train_start : ℕ
  pub train_end : ℕ
  pub test_start : ℕ
  pub test_end : ℕ
  pub in_sample : PerformanceMetrics F
  pub out_of_sample : PerformanceMetrics F

pub record WalkForwardResult (F : Type 0) : Type 0 where
  pub config : BacktestConfig F
  pub windows : List (WalkForwardWindow F)
  pub aggregated_oos : PerformanceMetrics F
  pub overfitting_score : F

pub record MonteCarloResult (F : Type 0) : Type 0 where
  pub iterations : ℕ
  pub confidence_level : F
  pub median_final_equity : F
  pub p5_final_equity : F
  pub p95_final_equity : F
  pub median_max_drawdown : F
  pub p95_max_drawdown : F
  pub median_sharpe : F
  pub p5_sharpe : F
  pub p95_sharpe : F
  pub prob_profit : F
  pub prob_ruin : F

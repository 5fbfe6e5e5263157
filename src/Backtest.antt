-- ===== src/Backtest.antt =====
-- backtest/: the engine that replays strategies, and what is computed of its trades.
pub mod Models
pub mod Engine
pub mod Metrics
pub mod MonteCarlo
pub mod WalkForward
pub mod Comparison

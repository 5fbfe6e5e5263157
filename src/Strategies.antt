-- ===== src/Strategies.antt =====
-- The package strategies: what a snapshot says about the direction of the next window.
pub mod Base
pub mod Signals
pub mod Selector
pub mod Adaptive
pub mod Trend
pub mod Composite
pub mod Regime
pub mod Correlation

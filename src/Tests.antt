-- ===== src/Tests.antt =====
-- Concrete inputs, and the theorems at them.
pub mod Data
pub mod Core
pub mod Storage
pub mod Postgres
pub mod Execution
pub mod Strategies
pub mod Settlement
pub mod Backtest
pub mod Bot
pub mod Feeds
pub mod Dashboard
pub mod Notifications
pub mod Access
pub mod Market
pub mod Comparison

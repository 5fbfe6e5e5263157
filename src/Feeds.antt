-- ===== src/Feeds.antt =====
-- feeds/: the RSI feed, the Binance feed and the exchanges behind the manager.
pub mod Rsi
pub mod Exchanges
pub mod Binance

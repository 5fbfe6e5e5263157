-- ===== src/Dashboard.antt =====
-- dashboard/: the WebSocket streams, the middleware, and the log buffer.
pub mod Security
pub mod Broker
pub mod Logs

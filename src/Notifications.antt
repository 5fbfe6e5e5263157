-- ===== src/Notifications.antt =====
-- notifications/: the client of the Telegram API.
pub mod Telegram

-- ===== src/Core.antt =====
-- The package core: the shared types, the event bus and the retry decorator.
pub mod Types
pub mod Events
pub mod Retry

-- ===== src/Logger.antt =====
-- internal/logger: the access log.
pub mod Escape
pub mod Sender
pub mod Message

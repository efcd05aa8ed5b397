-- ===== src/Message.antt =====
-- internal/message: what a text message is, which conversation it belongs to, the duplicate filter
-- and the display log.
pub mod Text
pub mod Dedup
pub mod Window
pub mod First
pub mod Recent
pub mod Log
pub mod Scrollback
mod Tests

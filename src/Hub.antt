-- ===== src/Hub.antt =====
-- internal/messagehub: what a client sends, and what it shows of what it receives.
pub mod Messages
pub mod Delivery
mod Tests

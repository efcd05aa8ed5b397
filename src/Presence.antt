-- ===== src/Presence.antt =====
-- internal/coordinator/presence: which devices are online, since when, and with which status.
pub mod Tracker
pub mod Status
pub mod Reached
pub mod Live
pub mod Start
pub mod Runs
pub mod Expiry
pub mod Facts
pub mod Conns
mod Tests

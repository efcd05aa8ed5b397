-- ===== src/Client.antt =====
-- internal/control (client.go, heartbeat.go, config.go) and internal/presenceview: the supervisor of the
-- client's connection, its handshake, its read loop, the watchdog of a session, and the view of the
-- other devices.
pub mod Config
pub mod Watchdog
pub mod Beats
pub mod Supervisor
pub mod Steady
pub mod Verdicts
pub mod Patience
pub mod View
pub mod Roster
pub mod Handshake
pub mod Outbox
pub mod Drain
mod Tests
mod ViewTests

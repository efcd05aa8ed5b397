-- ===== src/App.antt =====
-- The assembled client, cmd/walkie/app.go with the acknowledged position of
-- internal/control/client.go: its parts and its handlers, and what its callers can rely on.
pub mod Acked
pub mod Assembled
pub mod Incoming
pub mod Runs
pub mod Replay
pub mod Drains
pub mod Turns
pub mod Outgoing
mod Tests

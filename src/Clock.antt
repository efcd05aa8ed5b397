-- ===== src/Clock.antt =====
-- The fake clock, internal/clock/fake.go, and when its Advance does not return.
pub mod Fake
pub mod Firing
mod Tests

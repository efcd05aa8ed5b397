-- ===== src/Queue.antt =====
-- The coordinator's offline inbox, internal/coordinator/queue: the tables and the SQL statements on
-- them, the at-rest framing, the queue's operations, and what holds of them.
pub mod Tables
pub mod Framing
pub mod Ops
pub mod Rows
pub mod Sound
pub mod Enqueue
pub mod Retention
pub mod Expiry
pub mod Armed
pub mod Sweep
pub mod Resume
pub mod Replay
pub mod Step
pub mod History
mod Tests

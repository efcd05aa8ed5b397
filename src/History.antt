-- ===== src/History.antt =====
-- The client's message history, internal/history: the table with its statements and operations, and
-- what retention leaves of it.
pub mod Store
pub mod Rows
pub mod Retention
mod Tests

-- ===== src/Store.antt =====
-- The schema of a database, internal/store/migrate.go: the runner of the embedded migrations, and what
-- a run leaves behind.
pub mod Migrate
pub mod Resuming
pub mod Interrupted
mod Tests

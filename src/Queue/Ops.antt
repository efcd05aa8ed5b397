-- ===== src/Queue/Ops.antt =====
-- The queue's operations (internal/coordinator/queue/queue.go). Each holds q.mu over its sequence of
-- statements, so it is one step on the state. A statement may fail: `fails` says which ones do in a
-- run. `now` is the reading of the injected clock.
mod Tx
mod Hold
mod Read
mod Expire
unfoldable pub use Tx.*
unfoldable pub use Hold.*
unfoldable pub use Read.*
unfoldable pub use Expire.*

-- ===== src/Control.antt =====
-- internal/control: the client's connection state machine, its subscribers, and the reconnect backoff.
pub mod State
pub mod Pump
pub mod Delivery
pub mod Order
pub mod Edges
pub mod Backoff
mod Tests

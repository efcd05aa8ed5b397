-- ===== src/Coordinator.antt =====
-- internal/coordinator: how the server answers the frames of its connections and routes messages
-- between them.
pub mod Routing
pub mod Routes
pub mod Authentic
pub mod Offline
pub mod Dispatch
pub mod Hello
pub mod Liveness
pub mod KeyExchange
pub mod Session
pub mod Stages
pub mod Orderly
pub mod Keeping
pub mod Steps
pub mod Turns
pub mod Serving
mod Tests
mod SessionTests

-- ===== src/Tui.antt =====
-- The terminal interface, internal/tui: the model and its updates, the keys, the layout of a frame,
-- and what holds of them.
pub mod Model
pub mod Keys
pub mod Order
pub mod Ready
pub mod Updates
pub mod View
pub mod Lines
pub mod Plain
pub mod Layout
pub mod Overflow
mod Tests

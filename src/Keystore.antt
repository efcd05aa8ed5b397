-- ===== src/Keystore.antt =====
-- internal/crypto/keystore.go: which key each peer is pinned to.
pub mod Pins
pub mod Authorize
mod Tests

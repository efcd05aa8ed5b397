-- ===== src/CtlSocket.antt =====
-- The local control socket, internal/ctlsocket/server.go: the bounded queue of a subscriber and the
-- goroutine that empties it, the server around them, and what a reader of the stream can rely on.
pub mod Subscriber
pub mod Stream
pub mod Accounts
pub mod Balance
pub mod Wakes
pub mod Gaps
pub mod Server
pub mod Serving
pub mod Closing
mod Tests

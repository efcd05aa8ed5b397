-- ===== src/Lib.antt =====
-- walkie is a text and voice tool for the devices of one tailnet. A coordinator authenticates its
-- connections, tracks presence, routes messages between connected devices, and holds direct
-- messages for absent ones in a queue; a client keeps one connection to it through a state
-- machine with backoff, keeps what it receives in a log and a history, holds what it cannot send,
-- and serves a terminal interface and a local control socket. This library models the core logic
-- of these parts and proves what makes each correct.
--
-- The parts, with the files that model them:
-- - internal/coordinator/queue (queue.go, sealed.go): Queue. Tables is the two SQLite tables of
--   internal/store/migrate.go and the statements on them, Framing the stored bytes, Ops the
--   operations, in four parts; Rows, Sound, Expiry, Armed and Step are lemmas; Enqueue, Replay,
--   Resume, Retention, Sweep and History are about those operations and about histories of them.
-- - internal/coordinator/presence (tracker.go, status.go, view.go): Presence. Tracker is the
--   leases and connections, Status the labels, subscriptions and the start, Reached the runs;
--   Live, Start and Runs carry the invariant, Expiry and Facts the rest.
-- - internal/coordinator (routing.go, server.go, keys.go, presence.go): Coordinator. Routing is
--   the routes and the message handlers, Dispatch what one frame does, Session the life of a
--   connection as turns of its handler. Routes and Authentic are about routing, and Offline puts
--   the queue behind it; Hello is about resuming, Liveness about what frames do to presence,
--   KeyExchange about announced keys; Stages, Orderly, Keeping, Steps and Turns carry the
--   invariant of Serving, which is about runs of the server. The handlers reach the queue through
--   the interfaces OfflineSink and QueueDrain, both parameters, as in the code.
-- - internal/message: Message. Text is messages and their keys, Dedup the filter, Log the display
--   log; Window and First relate the filter's ring to a window of ids, Recent and Scrollback
--   follow sequences of calls.
-- - internal/messagehub: Hub. Messages is sending and receiving, Delivery about both ends of a
--   message. The random id and the opening of a sealed box are parameters.
-- - internal/control/state.go and backoff.go: Control. State is the machine, Pump the turns of a
--   subscription's goroutine; Delivery and Order are about every interleaving of them, Edges
--   about the table, Backoff about the delay.
-- - internal/control (client.go, heartbeat.go, config.go): Client. Config and Watchdog are the
--   configuration check and the watchdog, Supervisor the turns of the supervisor, of the read
--   loop and of the verdicts; Steady and Verdicts carry the invariant, Patience is about runs,
--   Beats about the heartbeat's grid, Handshake about the exchange with the coordinator. View and
--   Roster are internal/presenceview, what a client keeps of the other devices; Outbox and Drain
--   are internal/outbox, what it holds while it is offline, and the drain of cmd/walkie/app.go as
--   a whole.
-- - internal/history: History. Store is the table history_message of internal/store/migrate.go
--   with the operations on it; Rows is about the order of its rows, Retention about what an
--   Append leaves.
-- - cmd/walkie/app.go: App. Assembled is the handlers of the assembled client, over the hub, the
--   history, the outbox and the roster, Drains the turns of the drains that WatchConn starts, and
--   Acked the acknowledged position of internal/control/client.go; Incoming, Runs and Replay are
--   about what arrives, Turns relates a drain's turns to the drain as a whole, and Outgoing is
--   about what the user sends.
-- - internal/ctlsocket/server.go: CtlSocket. Subscriber is a subscriber's bounded queue, Stream
--   the turns of one subscribed connection, Server the server around them; Accounts and Balance
--   follow every published line, Wakes and Gaps are about the pump and the gap reports, Serving
--   and Closing about runs of the server.
-- - internal/tui (model.go, keymap.go, view.go): Tui. Model is the state and the listing of
--   conversations, Keys the keys and Update, View the rows of a frame, Lines the lines that the
--   rows take; Order, Ready and Updates are about the selection, Layout about the height of a
--   frame, with Plain, and Overflow about a label that breaks lines.
-- - internal/store/migrate.go: Store. Migrate is the migration runner; Resuming and Interrupted
--   are about runs that are cut short.
-- - internal/clock/fake.go: Clock. Fake is the fake clock of the tests, Firing about its Advance.
-- - internal/crypto/keystore.go: Keystore. Pins is the operations, Authorize about them.
-- - internal/genproto/walkie/v1: Wire, the messages as records, and version.go. Marshalling is a
--   parameter, a Codec.
-- - Prelude: shared names, lists measured by native numbers, association lists and their sorted
--   listing, the int64 reading of a uint64.
--
-- How state and operations correspond: each operation that holds a mutex throughout is one
-- function from state to state, with its result; goroutines are turns, taken in any order. A
-- method Name of the source is the function name here, in lower case with underscores. Go's nil
-- is none; a panic is none as well, or the outcome panicked of Transition.
--
-- Bounds: times are natural numbers of nanoseconds, and an operation reads the clock once. uint64
-- positions are natural numbers, and int64(after) is written out where the queue compares; the
-- generation of a lease wraps at 2 ^ 64, as the doubling of the backoff does. A map is an
-- association list, so an iteration order that Go leaves open is the list's. Every loop of the
-- source that is modelled follows a list or a count, but the one that pushes a heartbeat's slot
-- past the present, which runs on a number of rounds; now + 2 are enough.
--
-- Failures: a database statement, a file's save or a table's load fails where a parameter says
-- so; nothing is assumed of when. The meaning of the SQL statements is that of SQLite's
-- documentation: a transaction that fails leaves the tables as they were.
--
-- Not modelled: the SQLite engine, the protobuf codec, NaCl boxes, sockets, the Tailscale daemon
-- and the random source, which are not code of the repository; audio, observability, the test
-- network and the rest of the commands, which are input and output; the text of a row of the
-- terminal interface and of a line of the control socket, which stand as their fields. Log lines
-- are left out, and so is what the database stores of a time as text, beyond whether it parses.
pub mod Prelude
pub mod Wire
pub mod Queue
pub mod Message
pub mod Keystore
pub mod Presence
pub mod Control
pub mod Client
pub mod Coordinator
pub mod Hub
pub mod History
pub mod App
pub mod CtlSocket
pub mod Tui
pub mod Store
pub mod Clock

-- ===== src/CtlSocket/Subscriber.antt =====
-- The lines of the control socket and a subscriber's queue (internal/ctlsocket/server.go). A line
-- stands as what eventLine and responseValue render: the type, the event and the fields.
use walkie.Prelude.{
  ℕ, ◌+◌, String, Bool, true, false, Option, List, [], ◌∷◌, ◌++◌, leb, ltb, if◌then◌else◌, length,
}

-- PresenceEntry
pub record PresenceEntry : Type 0 where
  pub device : String
  pub online : Bool
  pub last_seen : String
  pub status : String

-- What a command asked for: nothing more than `ok`, the roster, or an error's text.
pub data Answer : Type 0 where
  ok : Answer
  roster : List PresenceEntry → Answer
  malformed_request already_subscribed shutting_down : Answer
  unknown_cmd handler_error : String → Answer

pub data Line : Type 0 where
  conn_event : (from to reason at : String) → Line
  presence_event : PresenceEntry → Line
  message_event : (id sender recipient conversation : String) → Line
  snapshot : (state : String) (presence : List PresenceEntry) → Line
  gap : (dropped : ℕ) → Line
  response : (id : Option String) (answer : Answer) → Line

pub record Config : Type 0 where
  pub max_queued_events : ℕ

abbrev pub default_max_queued_events : ℕ
default_max_queued_events = 256

-- maxQueued; a setting that is not positive is 0 here.
abbrev pub max_queued : Config → ℕ
max_queued c = if ltb 0 c.max_queued_events then c.max_queued_events else default_max_queued_events

-- `sig` is a token in `notify`, and `closed` is `done` closed.
pub record Subscriber : Type 0 where
  pub queue_cap : ℕ
  pub queue : List Line
  pub dropped : ℕ
  pub sig : Bool
  pub closed : Bool

unfoldable pub new_subscriber : ℕ → Subscriber
new_subscriber queue_cap = record {
  queue_cap = queue_cap;
  queue = [];
  dropped = 0;
  sig = false;
  closed = false;
}

unfoldable pub enqueue : Line → Subscriber → Subscriber
enqueue line sub = record sub {
  queue = if leb sub.queue_cap (length sub.queue) then sub.queue else sub.queue ++ line ∷ [];
  dropped = if leb sub.queue_cap (length sub.queue) then sub.dropped + 1 else sub.dropped;
  sig = true;
}

-- take: the batch, and the subscriber after.
unfoldable pub take : Subscriber → List Line × Subscriber
take sub = (
  if ltb 0 sub.dropped then gap sub.dropped ∷ sub.queue else sub.queue,
  record sub { queue = []; dropped = 0 },
)

abbrev pub close : Subscriber → Subscriber
close sub = record sub { closed = true }

abbrev pub pending : Subscriber → ℕ
pending sub = length sub.queue

abbrev pub dropped_count : Subscriber → ℕ
dropped_count sub = sub.dropped

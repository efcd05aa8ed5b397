-- ===== src/CtlSocket/Server.antt =====
-- The server of the control socket (internal/ctlsocket/server.go). An operation runs to its end before
-- the next; what may come between the steps of subscribe is in Stream.
use walkie.Prelude.{
  ℕ, suc, zero, String, Bool, true, false, Option, none, some, List, [], ◌∷◌, ◌++◌, map,
  if◌then◌else◌, str_eq,
}
use walkie.CtlSocket.Subscriber.{
  PresenceEntry, Answer, ok, roster, malformed_request, already_subscribed, shutting_down,
  unknown_cmd, handler_error, Line, snapshot, response, Config, max_queued, Subscriber,
  new_subscriber, enqueue, take, close,
}

-- A connection: in the server's map or not, its socket open or not, and the lines written to it.
pub record Conn : Type 0 where
  pub registered : Bool
  pub is_open : Bool
  pub sub : Option Subscriber
  pub written : List Line

-- Every connection that was accepted, and whether the server is closed.
pub record Server : Type 0 where
  pub config : Config
  pub conns : List Conn
  pub closed : Bool

-- What the handlers answer at one call; an error is its text, and `none` is a nil error.
pub record Handlers : Type 0 where
  pub send : (to body : String) → Option String
  pub set_status : (status : String) → Option String
  pub presence : List PresenceEntry
  pub conn_state : String

-- A request line as json.Unmarshal reads it; an absent field is empty.
pub record Request : Type 0 where
  pub cmd : String
  pub id : Option String
  pub to : String
  pub body : String
  pub status : String

abbrev pub new_server : Config → Server
new_server config = record { config = config; conns = []; closed = false }

abbrev pub new_conn : Conn
new_conn = record { registered = true; is_open = true; sub = none; written = [] }

-- The connection that Serve accepts after Close has run.
abbrev pub refused_conn : Conn
refused_conn = record { registered = false; is_open = false; sub = none; written = [] }

-- Serve, on one accepted connection.
unfoldable pub accept : Server → Server
accept s = record s { conns = s.conns ++ (if s.closed then refused_conn else new_conn) ∷ [] }

-- Serve, on an error of Accept: whether it returns nil. `net_closed` tells errors.Is(err, net.ErrClosed).
abbrev pub serve_ends_well : Bool → Server → Bool
serve_ends_well net_closed s = if s.closed then true else net_closed

abbrev pub close_sub : Option Subscriber → Option Subscriber
close_sub none = none
close_sub (some sub) = some (close sub)

-- shutdown
abbrev pub shutdown : Conn → Conn
shutdown c = record c { registered = false; is_open = false; sub = close_sub c.sub }

-- Close; a second call does nothing.
unfoldable pub close_server : Server → Server
close_server s = if s.closed then s else record s {
  conns = map (λ c. if c.registered then shutdown c else c) s.conns;
  closed = true;
}

abbrev pub enqueue_to : Line → Option Subscriber → Option Subscriber
enqueue_to line none = none
enqueue_to line (some sub) = some (enqueue line sub)

-- publish
unfoldable pub publish : Line → Server → Server
unfolding enqueue
publish line s = if s.closed then s else record s {
  conns = map (λ c. if c.registered then record c { sub = enqueue_to line c.sub } else c) s.conns;
}

-- writeLine of several lines: those after a failed write are not written, and the socket is closed.
unfoldable pub write_lines : (Line → Bool) → List Line → Conn → Bool × Conn
write_lines goes [] c = (true, c)
write_lines goes (line ∷ lines) c =
    let rest = write_lines goes lines (record c { written = c.written ++ line ∷ [] }) in
    if goes line then rest else (false, record c { is_open = false })

-- A read loop that returns runs its deferred shutdown.
abbrev pub or_shutdown : Bool × Conn → Conn
or_shutdown (true, c) = c
or_shutdown (false, c) = shutdown c

abbrev pub answered : (Line → Bool) → Line → Bool × Conn → Conn
answered goes line (true, c) = or_shutdown (write_lines goes (line ∷ []) c)
answered goes line (false, c) = shutdown c

-- subscribe, with the write of its response.
abbrev pub subscribe :
    (Line → Bool) → Handlers → Config → Bool → Option String → Option Subscriber → Conn → Conn
subscribe goes h config closed id (some sub) c =
    answered goes (response id already_subscribed) (true, c)
subscribe goes h config true id none c = answered goes (response id shutting_down) (true, c)
subscribe goes h config false id none c =
    let seeded = enqueue (snapshot h.conn_state h.presence) (new_subscriber (max_queued config)) in
    let r = write_lines goes (take seeded).0 (record c { sub = some (take seeded).1 }) in
    answered goes (response id ok) r

abbrev pub error_or_ok : Option String → Answer
error_or_ok none = ok
error_or_ok (some e) = handler_error e

abbrev pub dispatch : (Line → Bool) → Handlers → Config → Bool → Option Request → Conn → Conn
dispatch goes h config closed none c = answered goes (response none malformed_request) (true, c)
dispatch goes h config closed (some req) c =
    if str_eq req.cmd "send"
    then answered goes (response req.id (error_or_ok (h.send req.to req.body))) (true, c)
    else if str_eq req.cmd "status"
    then answered goes (response req.id (error_or_ok (h.set_status req.status))) (true, c)
    else if str_eq req.cmd "presence"
    then answered goes (response req.id (roster h.presence)) (true, c)
    else if str_eq req.cmd "subscribe"
    then subscribe goes h config closed req.id c.sub c
    else answered goes (response req.id (unknown_cmd req.cmd)) (true, c)

abbrev pub change_at : (Conn → Conn) → ℕ → List Conn → List Conn
change_at f i [] = []
change_at f zero (c ∷ conns) = f c ∷ conns
change_at f (suc i) (c ∷ conns) = c ∷ change_at f i conns

-- A turn of readLoop on a line that is not blank; a closed socket gives none, also none that the
-- scanner had buffered.
unfoldable pub read_line : (Line → Bool) → Handlers → Option Request → ℕ → Server → Server
unfolding write_lines enqueue take new_subscriber
read_line goes h req i s = record s {
  conns =
      change_at (λ c. if c.is_open then dispatch goes h s.config s.closed req c else c) i s.conns;
}

-- readLoop ends, its peer gone or its line too long.
abbrev pub hang_up : ℕ → Server → Server
hang_up i s = record s { conns = change_at (λ c. if c.is_open then shutdown c else c) i s.conns }

abbrev pub pumped : (Line → Bool) → Option Subscriber → Conn → Conn
pumped goes none c = c
pumped goes (some sub) c =
    or_shutdown (write_lines goes (take sub).0 (record c { sub = some (take sub).1 }))

-- A round of a connection's pump; a write on a closed socket fails.
unfoldable pub pump : (Line → Bool) → ℕ → Server → Server
unfolding write_lines take
pump goes i s = record s {
  conns = change_at (λ c. if c.is_open then pumped goes c.sub c else c) i s.conns;
}

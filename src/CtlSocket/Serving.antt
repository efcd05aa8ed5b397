-- ===== src/CtlSocket/Serving.antt =====
-- Runs of the control socket's server (internal/ctlsocket/server.go).
use walkie.Prelude.{
  ℕ, suc, zero, ◌≡◌, refl, String, Bool, true, false, Option, none, some, List, [], ◌∷◌, ◌++◌, map,
  if◌then◌else◌, All, arith, if-intro,
}
use walkie.CtlSocket.Subscriber.{
  Line, Config, Subscriber, response, snapshot, enqueue, new_subscriber, take, max_queued,
  shutting_down, already_subscribed, ok, malformed_request, roster, unknown_cmd,
}
use walkie.CtlSocket.Server.{
  Conn, Server, Handlers, Request, refused_conn, new_conn, accept, shutdown, close_server, publish,
  enqueue_to, write_lines, or_shutdown, answered, subscribe, error_or_ok, dispatch, change_at,
  read_line, hang_up, pumped, pump,
}

pub data Op : Type 0 where
  accepts closes : Op
  publishes : Line → Op
  reads : (goes : Line → Bool) → Handlers → Option Request → ℕ → Op
  pumps : (goes : Line → Bool) → ℕ → Op
  hangs_up : ℕ → Op

unfoldable pub step : Op → Server → Server
unfolding accept close_server publish read_line pump
step accepts s = accept s
step closes s = close_server s
step (publishes line) s = publish line s
step (reads goes h req i) s = read_line goes h req i s
step (pumps goes i) s = pump goes i s
step (hangs_up i) s = hang_up i s

unfoldable pub run : List Op → Server → Server
unfolding step
run [] s = s
run (op ∷ ops) s = run ops (step op s)

-- A connection is in the map exactly while its socket is open.
abbrev pub IsTidy : Conn → Type 0
IsTidy c = c.registered ≡ c.is_open

abbrev pub IsShut : Conn → Type 0
IsShut c = (c.registered ≡ false) × (c.is_open ≡ false)

or_shutdown-write_lines :
    (goes : Line → Bool) (lines : List Line) (c : Conn)
    → IsTidy c
    → IsTidy (or_shutdown (write_lines goes lines c))
unfolding write_lines
or_shutdown-write_lines goes [] c tidy = tidy
or_shutdown-write_lines goes (line ∷ lines) c tidy =
    if-intro (λ r. IsTidy (or_shutdown r)) (goes line)
      (write_lines goes lines (record c { written = c.written ++ line ∷ [] }))
      (false, record c { is_open = false })
      (λ _. or_shutdown-write_lines goes lines (record c { written = c.written ++ line ∷ [] }) tidy)
      (λ _. refl)

answered-write_lines :
    (goes : Line → Bool) (line : Line) (lines : List Line) (c : Conn)
    → IsTidy c
    → IsTidy (answered goes line (write_lines goes lines c))
unfolding write_lines
answered-write_lines goes line [] c tidy = or_shutdown-write_lines goes (line ∷ []) c tidy
answered-write_lines goes line (l ∷ lines) c tidy =
    if-intro (λ r. IsTidy (answered goes line r)) (goes l)
      (write_lines goes lines (record c { written = c.written ++ l ∷ [] }))
      (false, record c { is_open = false })
      (λ _. answered-write_lines goes line lines (record c { written = c.written ++ l ∷ [] }) tidy)
      (λ _. refl)

module _ (goes : Line → Bool) (h : Handlers) (config : Config) (closed : Bool) where
  answered-IsTidy : (line : Line) (c : Conn) → IsTidy c → IsTidy (answered goes line (true, c))
  answered-IsTidy line c tidy = or_shutdown-write_lines goes (line ∷ []) c tidy

  subscribe-IsTidy :
      (closed' : Bool) (id : Option String) (o : Option Subscriber) (c : Conn)
      → IsTidy c
      → IsTidy (subscribe goes h config closed' id o c)
  subscribe-IsTidy closed' id (some sub) c tidy =
      answered-IsTidy (response id already_subscribed) c tidy
  subscribe-IsTidy true id none c tidy = answered-IsTidy (response id shutting_down) c tidy
  subscribe-IsTidy false id none c tidy =
      let seeded =
        enqueue (snapshot h.conn_state h.presence) (new_subscriber (max_queued config)) in
      answered-write_lines goes (response id ok) (take seeded).0
        (record c { sub = some (take seeded).1 }) tidy

  dispatch-IsTidy :
      (req : Option Request) (c : Conn) → IsTidy c → IsTidy (dispatch goes h config closed req c)
  dispatch-IsTidy none c tidy = answered-IsTidy (response none malformed_request) c tidy
  dispatch-IsTidy (some req) c tidy = ground (
    arith,
    answered-IsTidy (response req.id (error_or_ok (h.send req.to req.body))) c tidy,
    answered-IsTidy (response req.id (error_or_ok (h.set_status req.status))) c tidy,
    answered-IsTidy (response req.id (roster h.presence)) c tidy,
    subscribe-IsTidy closed req.id c.sub c tidy,
    answered-IsTidy (response req.id (unknown_cmd req.cmd)) c tidy,
  )

pumped-IsTidy :
    (goes : Line → Bool) (o : Option Subscriber) (c : Conn) → IsTidy c → IsTidy (pumped goes o c)
pumped-IsTidy goes none c tidy = tidy
pumped-IsTidy goes (some sub) c tidy =
    or_shutdown-write_lines goes (take sub).0 (record c { sub = some (take sub).1 }) tidy

change_at-All :
    (f : Conn → Conn) (i : ℕ) (conns : List Conn)
    → ((c : Conn) → IsTidy c → IsTidy (f c))
    → All IsTidy conns
    → All IsTidy (change_at f i conns)
change_at-All f i [] keeps tidy = tt
change_at-All f zero (c ∷ conns) keeps tidy = (keeps c tidy.0, tidy.1)
change_at-All f (suc i) (c ∷ conns) keeps tidy = (tidy.0, change_at-All f i conns keeps tidy.1)

map-All :
    (f : Conn → Conn) (conns : List Conn)
    → ((c : Conn) → IsTidy c → IsTidy (f c))
    → All IsTidy conns
    → All IsTidy (map f conns)
map-All f [] keeps tidy = tt
map-All f (c ∷ conns) keeps tidy = (keeps c tidy.0, map-All f conns keeps tidy.1)

append-All :
    (conns : List Conn) (c : Conn) → All IsTidy conns → IsTidy c → All IsTidy (conns ++ c ∷ [])
append-All [] c tidy t = (t, tt)
append-All (x ∷ conns) c tidy t = (tidy.0, append-All conns c tidy.1 t)

while_open-IsTidy :
    (f : Conn → Conn)
    → ((c : Conn) → IsTidy c → IsTidy (f c))
    → (c : Conn) → IsTidy c
    → IsTidy (if c.is_open then f c else c)
while_open-IsTidy f keeps c tidy = if-intro IsTidy c.is_open (f c) c (λ _. keeps c tidy) (λ _. tidy)

pub step-IsTidy : (op : Op) (s : Server) → All IsTidy s.conns → All IsTidy (step op s).conns
unfolding step accept close_server publish read_line pump
step-IsTidy accepts s tidy =
    append-All s.conns (if s.closed then refused_conn else new_conn) tidy
      (if-intro IsTidy s.closed refused_conn new_conn (λ _. refl) (λ _. refl))
step-IsTidy closes s tidy =
    let all = λ (c : Conn). if c.registered then shutdown c else c in
    if-intro (λ x. All IsTidy x.conns) s.closed s
      (record s { conns = map all s.conns; closed = true }) (λ _. tidy)
      (λ _.
        map-All all s.conns
          (λ c t. if-intro IsTidy c.registered (shutdown c) c (λ _. refl) (λ _. t)) tidy)
step-IsTidy (publishes line) s tidy =
    let to_each =
      λ (c : Conn). if c.registered then record c { sub = enqueue_to line c.sub } else c in
    if-intro (λ x. All IsTidy x.conns) s.closed s (record s { conns = map to_each s.conns })
      (λ _. tidy)
      (λ _.
        map-All to_each s.conns
          (λ c t.
            if-intro IsTidy c.registered (record c { sub = enqueue_to line c.sub }) c (λ _. t)
              (λ _. t))
          tidy)
step-IsTidy (reads goes h req i) s tidy =
    change_at-All (λ c. if c.is_open then dispatch goes h s.config s.closed req c else c) i s.conns
      (while_open-IsTidy (dispatch goes h s.config s.closed req)
        (dispatch-IsTidy goes h s.config s.closed req))
      tidy
step-IsTidy (pumps goes i) s tidy =
    change_at-All (λ c. if c.is_open then pumped goes c.sub c else c) i s.conns
      (while_open-IsTidy (λ c. pumped goes c.sub c) (λ c. pumped-IsTidy goes c.sub c)) tidy
step-IsTidy (hangs_up i) s tidy =
    change_at-All (λ c. if c.is_open then shutdown c else c) i s.conns
      (while_open-IsTidy shutdown (λ c t. refl)) tidy

-- ===== src/CtlSocket/Closing.antt =====
-- The control socket's server once it is closed (internal/ctlsocket/server.go).
use walkie.Prelude.{
  ℕ, suc, zero, ◌+◌, ◌≡◌, refl, sym, ap, ◌∙◌, subst, Bool, true, false, List, [], ◌∷◌, ◌++◌,
  append_assoc, append-nil, map, if◌then◌else◌, All, arith, Bool-cases, inl, inr,
}
use walkie.CtlSocket.Subscriber.{Config}
use walkie.CtlSocket.Server.{
  Conn, Server, new_server, refused_conn, new_conn, accept, shutdown, close_server, publish,
  enqueue_to, dispatch, change_at, read_line, hang_up, pumped, pump,
}
use walkie.CtlSocket.Serving.{
  Op, accepts, closes, publishes, reads, pumps, hangs_up, step, run, IsTidy, IsShut, step-IsTidy,
}

unfoldable pub refused_conns : ℕ → List Conn
refused_conns zero = []
refused_conns (suc n) = refused_conn ∷ refused_conns n

change_at-shut :
    (f : Conn → Conn) (i : ℕ) (conns : List Conn)
    → All IsShut conns
    → change_at (λ c. if c.is_open then f c else c) i conns ≡ conns
change_at-shut f i [] shut = refl
change_at-shut f zero (c ∷ conns) shut = rw shut.0.1 refl
change_at-shut f (suc i) (c ∷ conns) shut = ap (λ x. c ∷ x) (change_at-shut f i conns shut.1)

append-IsShut : (conns : List Conn) → All IsShut conns → All IsShut (conns ++ refused_conn ∷ [])
append-IsShut [] shut = ((refl, refl), tt)
append-IsShut (c ∷ conns) shut = (shut.0, append-IsShut conns shut.1)

map-IsShut :
    (conns : List Conn)
    → All IsTidy conns
    → All IsShut (map (λ c. if c.registered then shutdown c else c) conns)
map-IsShut [] tidy = tt
map-IsShut (c ∷ conns) tidy = (ground (arith, tidy.0), map-IsShut conns tidy.1)

-- A closed server goes on, with some refused connections more.
abbrev Quiet : List Conn → Server → Type 0
Quiet conns s = (n : ℕ) × (s.conns ≡ conns ++ refused_conns n) × (s.closed ≡ true)

unchanged-Quiet :
    (conns : List Conn) (s : Server) → s.conns ≡ conns → s.closed ≡ true → Quiet conns s
unfolding refused_conns
unchanged-Quiet conns s same closed = (0, same ∙ sym (append-nil conns), closed)

step-Quiet :
    (op : Op) (s : Server) → s.closed ≡ true → All IsShut s.conns → Quiet s.conns (step op s)
unfolding step accept close_server publish read_line pump refused_conns
step-Quiet accepts s closed shut =
    (1, ap (λ b. s.conns ++ (if b then refused_conn else new_conn) ∷ []) closed, closed)
step-Quiet closes s closed shut =
    let after = λ (b : Bool). if b then s else record s {
      conns = map (λ c. if c.registered then shutdown c else c) s.conns;
      closed = true;
    } in
    unchanged-Quiet s.conns (after s.closed) (ap (λ b. (after b).conns) closed)
      (ap (λ b. (after b).closed) closed ∙ closed)
step-Quiet (publishes line) s closed shut =
    let after = λ (b : Bool). if b then s else record s {
      conns =
          map (λ c. if c.registered then record c { sub = enqueue_to line c.sub } else c) s.conns;
    } in
    unchanged-Quiet s.conns (after s.closed) (ap (λ b. (after b).conns) closed)
      (ap (λ b. (after b).closed) closed ∙ closed)
step-Quiet (reads goes h req i) s closed shut =
    unchanged-Quiet s.conns (read_line goes h req i s)
      (change_at-shut (dispatch goes h s.config s.closed req) i s.conns shut) closed
step-Quiet (pumps goes i) s closed shut =
    unchanged-Quiet s.conns (pump goes i s)
      (change_at-shut (λ c. pumped goes c.sub c) i s.conns shut) closed
step-Quiet (hangs_up i) s closed shut =
    unchanged-Quiet s.conns (hang_up i s) (change_at-shut shutdown i s.conns shut) closed

refused_conns-append : (n m : ℕ) → refused_conns n ++ refused_conns m ≡ refused_conns (n + m)
unfolding refused_conns
refused_conns-append zero m = ap refused_conns (omega arith)
refused_conns-append (suc n) m =
    let next : suc (n + m) ≡ suc n + m = omega arith in
    ap (λ x. refused_conn ∷ x) (refused_conns-append n m) ∙ ap refused_conns next

append-refused_conns-IsShut :
    (conns : List Conn) (n : ℕ) → All IsShut conns → All IsShut (conns ++ refused_conns n)
unfolding refused_conns
append-refused_conns-IsShut [] zero shut = tt
append-refused_conns-IsShut [] (suc n) shut = ((refl, refl), append-refused_conns-IsShut [] n tt)
append-refused_conns-IsShut (c ∷ conns) n shut =
    (shut.0, append-refused_conns-IsShut conns n shut.1)

run-Quiet :
    (ops : List Op) (s : Server) → s.closed ≡ true → All IsShut s.conns → Quiet s.conns (run ops s)
unfolding run
run-Quiet [] s closed shut = unchanged-Quiet s.conns s refl closed
run-Quiet (op ∷ ops) s closed shut =
    let (n, grown, closed') = step-Quiet op s closed shut in
    let (m, rest, closed'') =
      run-Quiet ops (step op s) closed'
        (subst (All IsShut) (sym grown) (append-refused_conns-IsShut s.conns n shut)) in
    (
      n + m,
      rest
          ∙ ap (λ x. x ++ refused_conns m) grown
          ∙ append_assoc s.conns (refused_conns n) (refused_conns m)
          ∙ ap (λ x. s.conns ++ x) (refused_conns-append n m),
      closed'',
    )

step-IsShut :
    (op : Op) (s : Server)
    → All IsTidy s.conns
    → s.closed ≡ false
    → (step op s).closed ≡ true
    → All IsShut (step op s).conns
unfolding step accept close_server publish read_line pump
step-IsShut closes s tidy is_open e =
    subst
      (λ b.
        All IsShut
          (if b then s else record s {
            conns = map (λ c. if c.registered then shutdown c else c) s.conns;
            closed = true;
          }).conns)
      (sym is_open) (map-IsShut s.conns tidy)
step-IsShut (publishes line) s tidy is_open e = absurd (
    ground (
      arith,
      is_open,
      e,
      ap
          (λ b.
            (if b then s else record s {
              conns =
                  map (λ c. if c.registered then record c { sub = enqueue_to line c.sub } else c)
                    s.conns;
            }).closed)
          is_open,
    ))
step-IsShut accepts s tidy is_open e = absurd (ground (arith, is_open, e))
step-IsShut (reads goes h req i) s tidy is_open e = absurd (ground (arith, is_open, e))
step-IsShut (pumps goes i) s tidy is_open e = absurd (ground (arith, is_open, e))
step-IsShut (hangs_up i) s tidy is_open e = absurd (ground (arith, is_open, e))

-- Every connection is tidy, and those of a closed server are shut.
abbrev IsSound : Server → Type 0
IsSound s = All IsTidy s.conns × (s.closed ≡ true → All IsShut s.conns)

step-IsSound : (op : Op) (s : Server) → IsSound s → IsSound (step op s)
step-IsSound op s (tidy, shut) = (
  step-IsTidy op s tidy,
  λ e. elim (Bool-cases s.closed) [
    | inl closed ↦
        let (n, grown, closed') = step-Quiet op s closed (shut closed) in
        subst (All IsShut) (sym grown) (append-refused_conns-IsShut s.conns n (shut closed))
    | inr is_open ↦ step-IsShut op s tidy is_open e
  ],
)

run-IsSound : (ops : List Op) (s : Server) → IsSound s → IsSound (run ops s)
unfolding run
run-IsSound [] s sound = sound
run-IsSound (op ∷ ops) s sound = run-IsSound ops (step op s) (step-IsSound op s sound)

closes-closed : (s : Server) → (close_server s).closed ≡ true
unfolding close_server
closes-closed s = ground arith

-- Whatever a server has done before Close, and whatever it is asked for afterwards, connections
-- among it, publications, requests and rounds of the pumps: every connection that it had is left as
-- Close left it, shut, with nothing more written or queued, and each connection that comes later is
-- refused unread.
pub closed_is_quiet :
    (config : Config) (before later : List Op)
    → let s = close_server (run before (new_server config)) in
      (n : ℕ) × All IsShut s.conns
      × ((run later s).conns ≡ s.conns ++ refused_conns n)
      × ((run later s).closed ≡ true)
unfolding step
closed_is_quiet config before later =
    let sound : IsSound (run before (new_server config)) =
      run-IsSound before (new_server config) (tt, λ e. tt) in
    let s = close_server (run before (new_server config)) in
    let closed = closes-closed (run before (new_server config)) in
    let shut : All IsShut s.conns =
      (step-IsSound closes (run before (new_server config)) sound).1 closed in
    let (n, grown, closed') = run-Quiet later s closed shut in (n, shut, grown, closed')

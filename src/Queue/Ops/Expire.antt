-- ===== src/Queue/Ops/Expire.antt =====
-- The sweep, the watcher and the start (internal/coordinator/queue/queue.go).
use walkie.Prelude.{
  ℕ, ◌+◌, String, Bool, true, false, Option, none, some, List, [], ◌∷◌, leb, if◌then◌else◌, str_eq,
  any, ℤ, pos, negsuc,
}
use walkie.Queue.Tables.{Row, Tables, select_expired, delete_row}
use walkie.Queue.Ops.Tx.{
  Faults, Result, Timer, Queue, selecting, evicting, storage, bad_ttl, bad_max_size, ok, err,
}
use walkie.Queue.Ops.Hold.{rearm_locked}
use walkie.Queue.Ops.Read.{observe_depth}

-- The loop of sweep over the expired rows: each deletion is a statement of its own.
unfoldable pub evict_all : Faults → List Row → Queue → Result (Unit {0}) × Queue
evict_all fails [] q = (ok tt, q)
evict_all fails (e ∷ due) q =
    let rest = evict_all fails due (record q {
      db = delete_row e q.db;
      metrics = record q.metrics { ttl = q.metrics.ttl + 1 };
    }) in
    if fails (evicting e) then (err (storage (evicting e)), q) else rest

-- The names in `evicted`, each once.
abbrev pub recipients : List Row → List String
recipients [] = []
recipients (e ∷ due) =
    let rest = recipients due in if any (str_eq e.recipient) rest then rest else e.recipient ∷ rest

abbrev pub observe_all : Faults → List String → Queue → Queue
observe_all fails [] q = q
observe_all fails (r ∷ rs) q = observe_all fails rs (observe_depth fails r q)

abbrev pub signal_swept : List Row → Queue → Queue
signal_swept [] q = q
signal_swept (e ∷ due) q = record q { swept = true }

abbrev pub swept_after :
    Faults → ℕ → List Row → Result (Unit {0}) × Queue → Result (Unit {0}) × Queue
swept_after fails now due (err e, q) = (err e, q)
swept_after fails now due (ok u, q) =
    (ok tt, signal_swept due (rearm_locked fails now (observe_all fails (recipients due) q)))

-- A sweep as one step; the source holds its lock for the re-arming only.
unfoldable pub sweep : Faults → ℕ → Queue → Result (Unit {0}) × Queue
sweep fails now q =
    if fails selecting
    then (err (storage selecting), q)
    else swept_after fails now (select_expired q.ttl now q.db)
        (evict_all fails (select_expired q.ttl now q.db) q)

abbrev pub is_due : ℕ → Option Timer → Bool
is_due now none = false
is_due now (some t) = if t.taken then false else leb t.deadline now

abbrev pub take_fire : Option Timer → Option Timer
take_fire none = none
take_fire (some t) = some (record t { taken = true })

-- One turn of watch: the fire of the timer is received, and the sweep re-arms the timer. After a
-- failed sweep the loop is nudged and waits on the timer whose fire it has received.
unfoldable pub watch_turn : Faults → ℕ → Queue → Queue
watch_turn fails now q =
    if q.is_closed
    then q
    else if is_due now q.timer
    then (sweep fails now (record q { timer = take_fire q.timer })).1
    else q

abbrev pub started : Result (Unit {0}) × Queue → Result Queue
started (err e, q) = err e
started (ok u, q) = ok q

-- A queue on the tables as a previous process left them.
abbrev pub opened : Tables → ℕ → ℕ → Queue
opened db ttl max_size = record {
  db = db;
  ttl = ttl;
  max_size = max_size;
  timer = none;
  is_closed = false;
  swept = false;
  metrics = record { size_cap = 0; ttl = 0; depths = [] };
}

-- New and newQueue: the bounds are int64 values, checked here and natural numbers afterwards.
unfoldable pub new_queue : Faults → ℕ → Tables → ℤ → ℤ → Result Queue
new_queue fails now db (negsuc n) max_size = err bad_ttl
new_queue fails now db (pos ttl) (negsuc n) = if leb ttl 0 then err bad_ttl else err bad_max_size
new_queue fails now db (pos ttl) (pos max_size) =
    if leb ttl 0
    then err bad_ttl
    else if leb max_size 0
    then err bad_max_size
    else started (sweep fails now (opened db ttl max_size))

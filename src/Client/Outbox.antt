-- ===== src/Client/Outbox.antt =====
-- Messages held while there is no connection (internal/outbox/outbox.go), and how the client drains
-- them (cmd/walkie/app.go).
use walkie.Prelude.{
  ℕ, ◌+◌, String, Bool, true, false, not, Option, none, some, List, [], ◌∷◌, ◌++◌, if◌then◌else◌,
  str_eq, any, filter, length,
}
use walkie.Wire.{Bytes, Envelope}
use walkie.Queue.Framing.{Codec}

-- A row of outbox_message; the time it was queued at is not read again.
pub record Row : Type 0 where
  pub seq : ℕ
  pub message_id : String
  pub envelope : Bytes

-- The rows in the order of `seq`, in which AUTOINCREMENT adds them, and the next one's.
pub record Outbox : Type 0 where
  pub rows : List Row
  pub next_seq : ℕ

abbrev pub has_id : String → List Row → Bool
has_id id rows = any (λ row. str_eq row.message_id id) rows

-- The INSERT; message_id is UNIQUE.
abbrev pub inserted : Bool → Envelope → Option Bytes → Outbox → Bool × Outbox
inserted stored env none o = (false, o)
inserted stored env (some body) o =
    if not stored then (false, o) else if has_id env.message_id o.rows then (false, o) else (
      true,
      record {
        rows =
            o.rows
            ++ record { seq = o.next_seq; message_id = env.message_id; envelope = body } ∷ [];
        next_seq = o.next_seq + 1;
      },
    )

-- Enqueue, with whether it succeeds. `stored` tells whether the statement does.
unfoldable pub enqueue : Codec → Bool → Envelope → Outbox → Bool × Outbox
enqueue codec stored env o =
    if str_eq env.message_id "" then (false, o) else inserted stored env (codec.marshal env) o

abbrev pub and_then : Option Envelope → Option (List Envelope) → Option (List Envelope)
and_then (some env) (some envs) = some (env ∷ envs)
and_then _ _ = none

unfoldable pub decoded : Codec → List Row → Option (List Envelope)
decoded codec [] = some []
decoded codec (row ∷ rows) = and_then (codec.unmarshal row.envelope) (decoded codec rows)

-- Pending; `none` is an error. `reads` tells whether the query succeeds.
unfoldable pub pending : Codec → Bool → Outbox → Option (List Envelope)
unfolding decoded
pending codec reads o = if reads then decoded codec o.rows else none

-- Remove, where its statement succeeds.
unfoldable pub remove : String → Outbox → Outbox
remove id o = record o { rows = filter (λ row. not (str_eq row.message_id id)) o.rows }

-- Count
unfoldable pub count : Outbox → ℕ
count o = length o.rows

-- The loop of drainOutbox: the frames that were sent, and the outbox after. `goes` tells whether a
-- send succeeds and `removes` whether the removal after it does.
unfoldable pub drain_all :
    (Envelope → Bool) → (Envelope → Bool) → List Envelope → Outbox → List Envelope × Outbox
unfolding remove
drain_all goes removes [] o = ([], o)
drain_all goes removes (env ∷ envs) o =
    let rest = drain_all goes removes envs (remove env.message_id o) in
    if not (goes env)
    then ([], o)
    else if not (removes env)
    then (env ∷ [], o)
    else (env ∷ rest.0, rest.1)

abbrev pub drained :
    (Envelope → Bool) → (Envelope → Bool) → Option (List Envelope) → Outbox → List Envelope × Outbox
drained goes removes none o = ([], o)
drained goes removes (some envs) o = drain_all goes removes envs o

-- drainOutbox, with no other drain running and nothing else between its steps.
unfoldable pub drain_outbox :
    Codec → Bool → (Envelope → Bool) → (Envelope → Bool) → Outbox → List Envelope × Outbox
unfolding pending drain_all
drain_outbox codec reads goes removes o = drained goes removes (pending codec reads o) o

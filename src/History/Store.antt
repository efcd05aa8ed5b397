-- ===== src/History/Store.antt =====
-- The message history (internal/history/history.go) over the table history_message of
-- internal/store/migrate.go. Each statement commits on its own, and may fail.
use walkie.Prelude.{
  ℕ, ◌+◌, ◌-◌, String, Bool, true, false, ◌&&◌, not, Option, none, some, List, [], ◌∷◌, ◌++◌, leb,
  ◌==◌, if◌then◌else◌, str_eq, any, filter, take, map, length, ℤ, pos, is_nonpositive, ◌⊎◌, inl,
  inr,
}
use walkie.Message.Text.{Message, conversation_key_for}

-- A row of history_message.
pub record Stored : Type 0 where
  pub seq : ℕ
  pub message : Message
  pub conversation : String
  pub stored_at : ℕ

-- The rows in the order of `seq`, in which AUTOINCREMENT adds them, and the next one's.
pub record Table : Type 0 where
  pub rows : List Stored
  pub next_seq : ℕ

pub record Store : Type 0 where
  pub table : Table
  pub ttl : ℕ
  pub max_rows : ℕ

-- Which statements of a call succeed.
pub record Outcomes : Type 0 where
  pub inserts : Bool
  pub sweeps : Bool
  pub counts : Bool
  pub evicts : Bool

pub data Failure : Type 0 where
  no_local no_id not_inserted not_swept not_counted not_evicted other_count : Failure

abbrev pub has_id : String → List Stored → Bool
has_id id rows = any (λ row. str_eq row.message.id id) rows

-- INSERT OR IGNORE; message_id is UNIQUE.
unfoldable pub insert_or_ignore : ℕ → String → Message → Table → Table
insert_or_ignore now conversation msg t = if has_id msg.id t.rows then t else record {
  rows =
      t.rows
      ++ record { seq = t.next_seq; message = msg; conversation = conversation; stored_at = now }
        ∷ [];
  next_seq = t.next_seq + 1;
}

-- stored_at <= now - ttl, on instants that may lie before the first one counted.
abbrev pub lapsed : ℕ → ℕ → Stored → Bool
lapsed ttl now row = leb (row.stored_at + ttl) now

abbrev pub delete_rows : (Stored → Bool) → Table → Table
delete_rows p t = record t { rows = filter (λ row. not (p row)) t.rows }

-- seq IN (SELECT seq ... ORDER BY seq LIMIT n)
abbrev pub among_oldest : ℕ → Table → Stored → Bool
among_oldest n t row = any (λ old. old.seq == row.seq) (take n t.rows)

-- The eviction of `evict` rows, its count checked.
abbrev pub evicted : Bool → ℕ → Store → Option Failure × Store
evicted evicts evict s =
    let t = delete_rows (among_oldest evict s.table) s.table in
    if not evicts
    then (some not_evicted, s)
    else if length s.table.rows - length t.rows == evict
    then (none, record s { table = t })
    else (some other_count, record s { table = t })

-- enforceRetention behind its TTL sweep
abbrev pub capped : Outcomes → Store → Option Failure × Store
capped oc s =
    if not oc.counts
    then (some not_counted, s)
    else if leb (length s.table.rows) s.max_rows
    then (none, s)
    else evicted oc.evicts (length s.table.rows - s.max_rows) s

abbrev pub swept : ℕ → Store → Store
swept now s = record s { table = delete_rows (lapsed s.ttl now) s.table }

-- enforceRetention; `none` is a nil error, here and below.
unfoldable pub enforce_retention : Outcomes → ℕ → Store → Option Failure × Store
enforce_retention oc now s = if not oc.sweeps then (some not_swept, s) else capped oc (swept now s)

unfoldable pub append : Outcomes → ℕ → String → Message → Store → Option Failure × Store
unfolding insert_or_ignore enforce_retention
append oc now local msg s =
    if str_eq local ""
    then (some no_local, s)
    else if str_eq msg.id ""
    then (some no_id, s)
    else if not oc.inserts
    then (some not_inserted, s)
    else enforce_retention oc now
        (record s { table = insert_or_ignore now (conversation_key_for local msg) msg s.table })

pub record Options : Type 0 where
  pub ttl : ℤ
  pub max_messages : ℤ

pub data OpenError : Type 0 where
  bad_ttl bad_max_messages not_opened : OpenError
  startup_sweep : (e : Failure) → OpenError

abbrev pub started : Option Failure × Store → (OpenError ⊎ Store) × Table
started (none, s) = (inr s, s.table)
started (some e, s) = (inl (startup_sweep e), s.table)

abbrev pub magnitude : ℤ → ℕ
magnitude (pos n) = n
magnitude _ = 0

-- Open, with the table after it. `opens` tells whether the directory and the database open, and
-- `t` is what the database holds.
unfoldable pub open_store : Bool → Outcomes → ℕ → Options → Table → (OpenError ⊎ Store) × Table
unfolding enforce_retention
open_store opens oc now opts t =
    if is_nonpositive opts.ttl
    then (inl bad_ttl, t)
    else if is_nonpositive opts.max_messages
    then (inl bad_max_messages, t)
    else if not opens
    then (inl not_opened, t)
    else started (
        enforce_retention oc now
          (record { table = t; ttl = magnitude opts.ttl; max_rows = magnitude opts.max_messages }))

-- The empty conversation matches all, and a nil bound is open.
pub record QueryOptions : Type 0 where
  pub conversation : String
  pub from : Option ℕ
  pub to : Option ℕ

pub record Row : Type 0 where
  pub message : Message
  pub conversation : String

-- The stored texts compare as the instants do, the zero time first.
abbrev pub at_least : Option ℕ → Option ℕ → Bool
at_least none received = true
at_least (some t) none = false
at_least (some t) (some received) = leb t received

abbrev pub at_most : Option ℕ → Option ℕ → Bool
at_most none received = true
at_most (some t) none = true
at_most (some t) (some received) = leb received t

abbrev pub in_conversation : String → Stored → Bool
in_conversation key row = if str_eq key "" then true else str_eq row.conversation key

abbrev pub matches : QueryOptions → Stored → Bool
matches opts row =
    in_conversation opts.conversation row
    && (at_least opts.from row.message.received_at && at_most opts.to row.message.received_at)

abbrev pub row_of : Stored → Row
row_of row = record { message = row.message; conversation = row.conversation }

-- Query; `none` is an error. `reads` tells whether the rows and their times are read.
unfoldable pub query : Bool → QueryOptions → Store → Option (List Row)
query reads opts s = if reads then some (map row_of (filter (matches opts) s.table.rows)) else none

abbrev pub messages_of : Option (List Row) → Option (List Message)
messages_of none = none
messages_of (some rows) = some (map (λ row. row.message) rows)

-- Conversation
unfoldable pub conversation : Bool → String → Store → Option (List Message)
unfolding query
conversation reads key s =
    messages_of (query reads (record { conversation = key; from = none; to = none }) s)

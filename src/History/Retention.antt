-- ===== src/History/Retention.antt =====
-- What the history keeps (internal/history/history.go).
use walkie.Prelude.{
  ℕ, ◌-◌, ◌≤◌, ◌≡◌, refl, sym, ◌∙◌, String, true, false, not, Option, none, some, List, [], ◌++◌,
  ◌==◌, leb, if◌then◌else◌, str_eq, filter, take, drop, length, length-drop, take-append-drop,
  arith, Bool-cases, if-intro, ◌⊎◌, inl, inr,
}
use walkie.Message.Text.{Message, conversation_key_for}
use walkie.History.Store.{
  Stored, Store, Outcomes, Failure, insert_or_ignore, lapsed, delete_rows, among_oldest, evicted,
  capped, swept, enforce_retention, append,
}
use walkie.History.Rows.{
  IsOrderly, delete_rows-IsOrderly, insert_or_ignore-IsOrderly, oldest_are_first,
}

abbrev pub all_succeed : Outcomes
all_succeed = record { inserts = true; sweeps = true; counts = true; evicts = true }

-- What retention leaves of `rows`: the last of those that have not lapsed, as many as the cap allows.
pub record Retains (ttl max_rows now : ℕ) (rows : List Stored) (r : Option Failure × Store)
    : Type 0 where
  pub succeeds : r.0 ≡ none
  pub gone : List Stored
  pub whole : filter (λ row. not (lapsed ttl now row)) rows ≡ gone ++ r.1.table.rows
  pub bounded : length r.1.table.rows ≤ max_rows
  pub tight : (gone ≡ []) ⊎ (length r.1.table.rows ≡ max_rows)

enforce_retention-IsOrderly :
    (oc : Outcomes) (now : ℕ) (s : Store)
    → IsOrderly s.table
    → IsOrderly (enforce_retention oc now s).1.table
unfolding enforce_retention
enforce_retention-IsOrderly oc now s o =
    let P : Option Failure × Store → Type 0 = λ r. IsOrderly r.1.table in
    let s' = swept now s in
    let o' = delete_rows-IsOrderly (lapsed s.ttl now) s.table o in
    let n = length s'.table.rows - s.max_rows in
    let t = delete_rows (among_oldest n s'.table) s'.table in
    let o'' = delete_rows-IsOrderly (among_oldest n s'.table) s'.table o' in
    if-intro P (not oc.sweeps) (some Failure.not_swept, s) (capped oc s') (λ _. o)
      (λ _.
        if-intro P (not oc.counts) (some Failure.not_counted, s')
          (if leb (length s'.table.rows) s'.max_rows then (none, s') else evicted oc.evicts n s')
          (λ _. o')
          (λ _.
            if-intro P (leb (length s'.table.rows) s'.max_rows) (none, s') (evicted oc.evicts n s')
              (λ _. o')
              (λ _.
                if-intro P (not oc.evicts) (some Failure.not_evicted, s')
                  (if length s'.table.rows - length t.rows == n
                    then (none, record s' { table = t })
                    else (some Failure.other_count, record s' { table = t }))
                  (λ _. o')
                  (λ _.
                    if-intro P (length s'.table.rows - length t.rows == n)
                      (none, record s' { table = t })
                      (some Failure.other_count, record s' { table = t }) (λ _. o'') (λ _. o'')))))

evicted_oldest :
    (n : ℕ) (s : Store)
    → IsOrderly s.table
    → n ≤ length s.table.rows
    → evicted true n s ≡ (none, record s { table = record s.table { rows = drop n s.table.rows } })
evicted_oldest n s o le =
    let rows = s.table.rows in
    let first = oldest_are_first n 0 s.table.next_seq rows o.0 in
    let removed : (length rows - length (drop n rows) == n) ≡ true =
      ground (arith, length-drop n rows, le) in
    rw (first, removed) refl

capped-Retains :
    (ttl now : ℕ) (rows : List Stored) (s : Store)
    → IsOrderly s.table
    → filter (λ row. not (lapsed ttl now row)) rows ≡ s.table.rows
    → Retains ttl s.max_rows now rows (capped all_succeed s)
capped-Retains ttl now rows s o alive =
    let kept = s.table.rows in
    let over = length kept - s.max_rows in
    elim (Bool-cases (leb (length kept) s.max_rows)) [
      | inl fits ↦ rw fits (record {
        succeeds = refl;
        gone = [];
        whole = alive;
        bounded = ground (arith, fits);
        tight = inl refl;
      })
      | inr exceeds ↦
          rw (exceeds, evicted_oldest over s o (omega arith))
            (record {
              succeeds = refl;
              gone = take over kept;
              whole = alive ∙ sym (take-append-drop over kept);
              bounded = ground (arith, length-drop over kept, exceeds);
              tight = inr (ground (arith, length-drop over kept, exceeds));
            })
    ]

-- Where its statements succeed, retention on an orderly table returns no error.
enforce_retention-Retains :
    (now : ℕ) (s : Store)
    → IsOrderly s.table
    → Retains s.ttl s.max_rows now s.table.rows (enforce_retention all_succeed now s)
unfolding enforce_retention
enforce_retention-Retains now s o =
    capped-Retains s.ttl now s.table.rows (swept now s)
      (delete_rows-IsOrderly (lapsed s.ttl now) s.table o) refl

-- Append of a message with an id, by a device with a name, on a table whose rows are numbered in
-- order below the next number and hold each id once, all its statements succeeding: it returns no
-- error; no lapsed row is left and at most `max_rows` rows are; and what is left of the table with
-- the message in it, unless its id was there, is the last part of the rows that have not lapsed:
-- all of them, or as many as the cap allows.
pub append-Retains :
    (now : ℕ) (local : String) (msg : Message) (s : Store)
    → IsOrderly s.table
    → str_eq local "" ≡ false
    → str_eq msg.id "" ≡ false
    → Retains s.ttl s.max_rows now
        (insert_or_ignore now (conversation_key_for local msg) msg s.table).rows
        (append all_succeed now local msg s)
unfolding append
append-Retains now local msg s o named identified =
    let t = insert_or_ignore now (conversation_key_for local msg) msg s.table in
    rw (named, identified)
      (enforce_retention-Retains now (record s { table = t })
        (insert_or_ignore-IsOrderly now (conversation_key_for local msg) msg s.table o))

-- Whatever statements of an Append fail, the rows stay numbered in the order of their arrival, below
-- the next number, and each id is held once.
pub append-IsOrderly :
    (oc : Outcomes) (now : ℕ) (local : String) (msg : Message) (s : Store)
    → IsOrderly s.table
    → IsOrderly (append oc now local msg s).1.table
unfolding append
append-IsOrderly oc now local msg s o =
    let t = insert_or_ignore now (conversation_key_for local msg) msg s.table in
    let o' = insert_or_ignore-IsOrderly now (conversation_key_for local msg) msg s.table o in
    ground (arith, o, enforce_retention-IsOrderly oc now (record s { table = t }) o')

-- ===== src/History/Tests.antt =====
-- Runs of the history.
use walkie.Prelude.{ℕ, ◌≡◌, refl, true, false, some, [], ◌∷◌, map, pos, inl, arith, String}
use walkie.Message.Text.{Message, conversation_key_for, conversation_key, is_broadcast}
use walkie.History.Store.{
  Stored, Table, Store, Outcomes, Failure, OpenError, insert_or_ignore, enforce_retention, append,
  open_store, conversation, query,
}
use walkie.History.Rows.{IsOrderly}
use walkie.History.Retention.{all_succeed, Retains, append-Retains, append-IsOrderly}

abbrev note : String → String → String → Message
note id sender recipient = record {
  id = id;
  sender = sender;
  recipient = recipient;
  body = 104 ∷ [];
  sent_at = some 5;
  received_at = some 7;
}

abbrev row_at : ℕ → ℕ → Message → Stored
row_at seq at msg = record { seq = seq; message = msg; conversation = "dm:bob"; stored_at = at }

abbrev two_rows : Table
two_rows = record {
  rows = row_at 1 10 (note "m1" "bob" "ann") ∷ row_at 3 12 (note "m3" "ann" "bob") ∷ [];
  next_seq = 4;
}

abbrev small_store : Store
small_store = record { table = two_rows; ttl = 100; max_rows = 2 }

append-Retains_example :
    Retains 100 2 13
      (insert_or_ignore 13
        (conversation_key_for "ann" (note "m4" "bob" "ann"))
        (note "m4" "bob" "ann")
        two_rows).rows
      (append all_succeed 13 "ann" (note "m4" "bob" "ann") small_store)
append-Retains_example =
    append-Retains 13 "ann" (note "m4" "bob" "ann") small_store
      ((omega arith, (omega arith, omega arith)), (refl, (refl, tt))) refl refl

abbrev sweep_fails : Outcomes
sweep_fails = record all_succeed { sweeps = false }

append-IsOrderly_example :
    IsOrderly (append sweep_fails 13 "ann" (note "m4" "bob" "ann") small_store).1.table
append-IsOrderly_example =
    append-IsOrderly sweep_fails 13 "ann" (note "m4" "bob" "ann") small_store
      ((omega arith, (omega arith, omega arith)), (refl, (refl, tt)))

-- The oldest row is evicted and the message is filed under its sender.
evicts_oldest :
    conversation true "dm:bob" (append all_succeed 13 "ann" (note "m4" "bob" "ann") small_store).1
    ≡ some (note "m3" "ann" "bob" ∷ note "m4" "bob" "ann" ∷ [])
unfolding conversation query append insert_or_ignore enforce_retention conversation_key_for
    conversation_key is_broadcast
evicts_oldest = refl

-- At instant 111 the row of instant 10 has lapsed.
lapses : map (λ row. row.seq) (enforce_retention all_succeed 111 small_store).1.table.rows ≡ 3 ∷ []
unfolding enforce_retention
lapses = refl

refuses_zero_ttl :
    open_store true all_succeed 5 (record { ttl = pos 0; max_messages = pos 9 }) two_rows
    ≡ (inl OpenError.bad_ttl, two_rows)
unfolding open_store
refuses_zero_ttl = refl

opens_and_sweeps :
    (open_store true all_succeed 112
      (record { ttl = pos 100; max_messages = pos 9 })
      two_rows).1.rows
    ≡ []
unfolding open_store enforce_retention
opens_and_sweeps = refl

-- A failed count leaves the message stored, and the cap unchecked.
count_fails :
    (append (record all_succeed { counts = false }) 13 "ann" (note "m4" "bob" "ann") small_store).0
    ≡ some Failure.not_counted
unfolding append insert_or_ignore enforce_retention
count_fails = refl

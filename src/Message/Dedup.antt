-- ===== src/Message/Dedup.antt =====
-- The duplicate filter (internal/message/dedup.go).
use walkie.Prelude.{
  ℕ, ◌+◌, ◌%◌, String, Bool, true, false, not, Option, none, some, List, [], ◌∷◌, ◌++◌, ◌==◌,
  if◌then◌else◌, str_eq, length, any, filter, get_elem?, set,
}

pub record Dedup : Type 0 where
  pub capacity : ℕ
  pub seen : List String  -- a Go set: `holds` and `discard` are its operations
  pub order : List String
  pub head : ℕ

abbrev pub holds : List String → String → Bool
holds ids id = any (λ x. str_eq x id) ids

abbrev pub discard : List String → String → List String
discard ids id = filter (λ x. not (str_eq x id)) ids

-- NewDedup; `none` is its panic on a capacity that is not positive.
unfoldable pub new_dedup : ℕ → Option Dedup
new_dedup capacity =
    if capacity == 0
    then none
    else some (record { capacity = capacity; seen = []; order = []; head = 0 })

-- An index out of range would panic; the slot exists whenever the ring is full.
abbrev pub replace_oldest : Dedup → String → Option String → Option (Bool × Dedup)
replace_oldest d id none = none
replace_oldest d id (some oldest) = some (
  true,
  record d {
    seen = id ∷ discard d.seen oldest;
    order = set d.order d.head id;
    head = (d.head + 1) % d.capacity;
  },
)

-- First; `none` is a panic.
unfoldable pub first : Dedup → String → Option (Bool × Dedup)
first d id =
    if holds d.seen id
    then some (false, d)
    else if length d.order == d.capacity
    then replace_oldest d id (get_elem? d.order d.head)
    else some (true, record d { seen = id ∷ d.seen; order = d.order ++ id ∷ [] })

unfoldable pub len : Dedup → ℕ
len d = length d.seen

-- ===== src/Message/Recent.antt =====
-- How long the duplicate filter remembers an id (internal/message/dedup.go).
use walkie.Prelude.{
  ℕ, suc, ◌+◌, ◌≤◌, ◌<◌, ◌≡◌, refl, ap, ◌∙◌, String, true, false, Option, none, some, List, [], ◌∷◌,
  ◌++◌, arith, ◌==◌, str_eq, eq_iff, length, length-append, append_assoc, any-append, Bool-cases,
  inl, inr,
}
use walkie.Message.Dedup.{Dedup, holds, first}
use walkie.Message.Window.{IsRing, window, length-window, pushed, holds-window}
use walkie.Message.First.{Firsts, first-Firsts}

-- `id` stands in the window with at most `n` ids behind it.
abbrev Recent : ℕ → String → List String → Type 0
Recent n id w =
    (front : List String) × (back : List String) × (w ≡ front ++ id ∷ back) × (length back ≤ n)

holds-Recent : (n : ℕ) (id : String) (w : List String) → Recent n id w → holds w id ≡ true
holds-Recent n id w (front, back, whole, _) =
    rw whole (ground (arith, any-append (λ x. str_eq x id) front (id ∷ back), eq_iff id id))

pushed-Recent :
    (capacity n : ℕ) (id x : String) (w : List String)
    → length w ≤ capacity
    → suc n < capacity
    → Recent n id w
    → Recent (suc n) id (pushed capacity x w)
unfolding pushed
pushed-Recent capacity n id x w short room ([], back, whole, few) = (
  [],
  back ++ x ∷ [],
  ground (arith, ap length whole),
  omega (arith, length-append back (x ∷ [])),
)
pushed-Recent capacity n id x w short room (y ∷ front, back, whole, few) =
    elim (Bool-cases (length w == capacity)) [
      | inl full ↦ (
        front,
        back ++ x ∷ [],
        ground (arith, append_assoc front (id ∷ back) (x ∷ [])),
        omega (arith, length-append back (x ∷ [])),
      )
      | inr space ↦ (
        y ∷ front,
        back ++ x ∷ [],
        ground (arith, append_assoc front (id ∷ back) (x ∷ [])),
        omega (arith, length-append back (x ∷ [])),
      )
    ]

-- A pushed id is the last one.
pushed_last : (capacity : ℕ) (id : String) (w : List String) → Recent 0 id (pushed capacity id w)
unfolding pushed
pushed_last capacity id w = (_, [], refl, omega arith)

pub holds-pushed :
    (capacity : ℕ) (id : String) (w : List String) → holds (pushed capacity id w) id ≡ true
holds-pushed capacity id w = holds-Recent 0 id (pushed capacity id w) (pushed_last capacity id w)

-- First on one id after another.
unfoldable pub firsts : Dedup → List String → Option Dedup
firsts d [] = some d
firsts d (id ∷ ids) = elim (first d id) [ none ↦ none | some (fresh, d') ↦ firsts d' ids ]

-- What First leaves behind of a recent id.
first-Recent :
    (d : Dedup) (id x : String) (n : ℕ) (r : Firsts d x)
    → IsRing d
    → suc n < d.capacity
    → Recent n id (window d)
    → Recent (suc n) id (window r.after)
first-Recent d id x n r ring room recent = elim (Bool-cases (holds (window d) x)) [
  | inl old ↦
      let (front, back, whole, few) = recent in (front, back, ground (arith, r.moved), omega arith)
  | inr new ↦
      let (front, back, whole, few) =
        pushed-Recent d.capacity n id x (window d) (length-window d ring) room recent in
      (front, back, ground (arith, r.moved), few)
]

firsts-Recent :
    (ids : List String) (d : Dedup) (id : String) (n : ℕ)
    → IsRing d
    → n + length ids < d.capacity
    → Recent n id (window d)
    → (d' : Dedup) × (firsts d ids ≡ some d')
      × IsRing d'
      × (d'.capacity ≡ d.capacity)
      × Recent (n + length ids) id (window d')
unfolding firsts
firsts-Recent [] d id n ring room recent =
    let (front, back, whole, few) = recent in
    (d, refl, ring, refl, (front, back, whole, omega arith))
firsts-Recent (x ∷ ids) d id n ring room recent =
    let r : Firsts d x = first-Firsts d x ring in
    let (d', runs, ring', cap, (front, back, whole, few)) =
      firsts-Recent ids r.after id (suc n) r.ring (omega (arith, r.same_capacity))
        (first-Recent d id x n r ring (omega arith) recent) in
    (
      d',
      rw (r.returns, firsts, runs),
      ring',
      cap ∙ r.same_capacity,
      (front, back, whole, omega arith),
    )

first_again :
    (d : Dedup) (id : String) → IsRing d → holds (window d) id ≡ true → first d id ≡ some (false, d)
unfolding first
first_again d id ring old = ground (arith, ring.lockstep id, holds-window d id)

first_new :
    (d d' : Dedup) (id : String)
    → IsRing d
    → first d id ≡ some (true, d')
    → IsRing d' × (d'.capacity ≡ d.capacity) × Recent 0 id (window d')
first_new d d' id ring new =
    let r : Firsts d id = first-Firsts d id ring in
    let here : r.after ≡ d' = ground (arith, r.returns, new) in
    let fresh : holds (window d) id ≡ false = ground (arith, r.returns, new) in
    let last : window r.after ≡ pushed d.capacity id (window d) = ground (arith, r.moved) in
    let recent : Recent 0 id (window r.after) = rw last (pushed_last d.capacity id (window d)) in
    (rw here at r.ring, rw here at r.same_capacity, rw here at recent)

-- An id that First has just called new is a duplicate for every later call until at least
-- `capacity` other calls have been made: with fewer of them in between, whatever their ids, First
-- answers and calls it seen.
pub first_remembers :
    (d d' : Dedup) (id : String) (ids : List String)
    → IsRing d
    → first d id ≡ some (true, d')
    → length ids < d.capacity
    → (d'' : Dedup) × (firsts d' ids ≡ some d'') × (first d'' id ≡ some (false, d''))
first_remembers d d' id ids ring new few =
    let (ring', cap, recent) = first_new d d' id ring new in
    let (d'', runs, ring'', cap'', recent'') =
      firsts-Recent ids d' id 0 ring' (omega arith) recent in
    (d'', runs, first_again d'' id ring'' (holds-Recent (0 + length ids) id (window d'') recent''))

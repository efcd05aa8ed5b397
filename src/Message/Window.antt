-- ===== src/Message/Window.antt =====
-- The ring of the duplicate filter is a window over the last distinct ids (internal/message/dedup.go).
use walkie.Prelude.{
  ℕ, suc, ◌+◌, ◌%◌, ◌≤◌, ◌<◌, ◌≡◌, refl, sym, ap, String, false, List, [], ◌∷◌, ◌++◌, arith, ◌==◌,
  if◌then◌else◌, str_eq, eq_iff, length, take, drop, length-append, append_assoc, append-nil,
  take_past, drop_past, take-append-drop, any-append,
}
use native.Mathlib.Nat.{mod-eq_of_lt}
use walkie.Message.Dedup.{Dedup, holds, discard}

-- Each id once.
abbrev pub Single : List String → Type 0
Single [] = Unit
Single (x ∷ xs) = (holds xs x ≡ false) × Single xs

pub record IsRing (d : Dedup) : Type 0 where
  pub positive : 0 < d.capacity
  pub short : length d.order ≤ d.capacity
  pub unwrapped : length d.order < d.capacity → d.head ≡ 0
  pub inside : d.head < d.capacity
  pub single : Single d.order
  pub lockstep : (id : String) → holds d.seen id ≡ holds d.order id

-- The remembered ids, oldest first.
unfoldable pub window : Dedup → List String
window d = drop d.head d.order ++ take d.head d.order

abbrev pub tail : List String → List String
tail [] = []
tail (x ∷ xs) = xs

pub unfolded_window : (d : Dedup) → window d ≡ drop d.head d.order ++ take d.head d.order
unfolding window
unfolded_window d = refl

pub length-window : (d : Dedup) → IsRing d → length (window d) ≤ d.capacity
unfolding window
length-window d ring = omega (
  arith,
  ring.short,
  length-append (drop d.head d.order) (take d.head d.order),
  length-append (take d.head d.order) (drop d.head d.order),
  ap length (take-append-drop d.head d.order),
)

-- A new id pushes the oldest one out of a full window.
unfoldable pub pushed : ℕ → String → List String → List String
pushed capacity id w = (if length w == capacity then tail w else w) ++ id ∷ []

Single-middle :
    (ys : List String) (y : String) (zs : List String)
    → Single (ys ++ y ∷ zs)
    → (holds ys y ≡ false) × (holds zs y ≡ false)
Single-middle [] y zs s = (refl, s.0)
Single-middle (x ∷ ys) y zs s = ground (
  arith,
  Single-middle ys y zs s.1,
  any-append (λ i. str_eq i x) ys (y ∷ zs),
  eq_iff x y,
  eq_iff y x,
)

pub Single-replace :
    (ys : List String) (y id : String) (zs : List String)
    → Single (ys ++ y ∷ zs)
    → holds (ys ++ y ∷ zs) id ≡ false
    → Single (ys ++ id ∷ zs)
Single-replace [] y id zs s h = (ground arith, s.1)
Single-replace (x ∷ ys) y id zs s h = (
  ground (
    arith,
    any-append (λ i. str_eq i x) ys (y ∷ zs),
    any-append (λ i. str_eq i x) ys (id ∷ zs),
    eq_iff x id,
    eq_iff id x,
  ),
  Single-replace ys y id zs s.1 (ground arith),
)

pub Single-snoc :
    (ids : List String) (id : String) → Single ids → holds ids id ≡ false → Single (ids ++ id ∷ [])
Single-snoc [] id s h = (refl, tt)
Single-snoc (x ∷ ids) id s h = (
  ground (arith, any-append (λ i. str_eq i x) ids (id ∷ []), eq_iff x id, eq_iff id x),
  Single-snoc ids id s.1 (ground arith),
)

holds-discard :
    (ids : List String) (y x : String)
    → holds (discard ids y) x ≡ (if str_eq y x then false else holds ids x)
holds-discard [] y x = ground arith
holds-discard (i ∷ ids) y x =
    ground (arith, holds-discard ids y x, eq_iff i y, eq_iff i x, eq_iff y x)

module _ (ys : List String) (y id : String) (zs seen : List String) (s : Single (ys ++ y ∷ zs))
    (same : (x : String) → holds seen x ≡ holds (ys ++ y ∷ zs) x) where
  pub replaced-lockstep : (x : String) → holds (id ∷ discard seen y) x ≡ holds (ys ++ id ∷ zs) x
  replaced-lockstep x = ground (
    arith,
    same x,
    holds-discard seen y x,
    any-append (λ i. str_eq i x) ys (y ∷ zs),
    any-append (λ i. str_eq i x) ys (id ∷ zs),
    Single-middle ys y zs s,
    eq_iff y x,
    eq_iff id x,
  )

-- The window of a full ring, one id replaced and the head moved on.
pub turned_window :
    (capacity : ℕ) (ys : List String) (y id : String) (zs : List String)
    → length (ys ++ y ∷ zs) ≡ capacity
    → drop ((length ys + 1) % capacity) (ys ++ id ∷ zs)
        ++ take ((length ys + 1) % capacity) (ys ++ id ∷ zs)
      ≡ (zs ++ ys) ++ id ∷ []
turned_window capacity ys y id [] full =
    let wraps : (length ys + 1) % capacity ≡ 0 = grind (arith, length-append ys (y ∷ [])) in
    rw (wraps, append-nil)
turned_window capacity ys y id (z ∷ zs) full =
    let on : (length ys + 1) % capacity ≡ suc (length ys) =
      grind (arith, length-append ys (y ∷ z ∷ zs), mod-eq_of_lt) in
    rw (on, take_past ys (z ∷ zs) id, drop_past ys (z ∷ zs) id)
      (sym (append_assoc (z ∷ zs) ys (id ∷ [])))

pub holds-window : (d : Dedup) (id : String) → holds (window d) id ≡ holds d.order id
unfolding window
holds-window d id = ground (
  arith,
  any-append (λ x. str_eq x id) (drop d.head d.order) (take d.head d.order),
  any-append (λ x. str_eq x id) (take d.head d.order) (drop d.head d.order),
  take-append-drop d.head d.order,
)

-- ===== src/Message/First.antt =====
-- First against the window of the ring (internal/message/dedup.go).
use walkie.Prelude.{
  ◌+◌, ◌%◌, ◌<◌, ◌≡◌, refl, sym, ap, ◌∙◌, String, true, false, not, some, List, [], ◌∷◌, ◌++◌,
  arith, ◌==◌, if◌then◌else◌, str_eq, eq_iff, length, get_elem?, set, take, drop, length-append,
  append-nil, take_all, drop_all, get_elem?-middle, set-middle, split_at, length-set, any-append,
  Bool-cases, inl, inr, ==→eq,
}
use walkie.Message.Dedup.{Dedup, holds, discard, first}
use walkie.Message.Window.{
  IsRing, Single, window, pushed, unfolded_window, Single-replace, Single-snoc, replaced-lockstep,
  turned_window, holds-window,
}

-- One call of First against the window: it never panics, it reports whether the id is outside the
-- window, and it pushes a new id.
pub record Firsts (d : Dedup) (id : String) : Type 0 where
  pub after : Dedup
  pub returns : first d id ≡ some (not (holds (window d) id), after)
  pub ring : IsRing after
  pub same_capacity : after.capacity ≡ d.capacity
  pub moved :
      window after ≡ (if holds (window d) id then window d else pushed d.capacity id (window d))

first-seen : (d : Dedup) (id : String) → IsRing d → holds d.order id ≡ true → Firsts d id
unfolding first
first-seen d id ring old = record {
  after = d;
  returns = ground (arith, ring.lockstep id, holds-window d id);
  ring = ring;
  same_capacity = refl;
  moved = ground (arith, holds-window d id);
}

room-moved :
    (d : Dedup) (id : String)
    → IsRing d
    → length d.order < d.capacity
    → drop d.head (d.order ++ id ∷ []) ++ take d.head (d.order ++ id ∷ [])
      ≡ pushed d.capacity id (window d)
unfolding window pushed
room-moved d id ring room = rw (ring.unwrapped room, append-nil, append-nil) (ground arith)

-- A ring with room takes the id at its end.
appended : Dedup → String → Dedup
appended d id = record d { seen = id ∷ d.seen; order = d.order ++ id ∷ [] }

appended-IsRing :
    (d : Dedup) (id : String)
    → IsRing d
    → holds d.order id ≡ false
    → length d.order < d.capacity
    → IsRing (appended d id)
unfolding appended
appended-IsRing d id ring new room = record {
  positive = ring.positive;
  short = omega (arith, length-append d.order (id ∷ []));
  unwrapped = λ h. ring.unwrapped room;
  inside = ring.inside;
  single = Single-snoc d.order id ring.single new;
  lockstep = λ x.
      ground (arith, ring.lockstep x, any-append (λ i. str_eq i x) d.order (id ∷ []), eq_iff id x);
}

first-room :
    (d : Dedup) (id : String)
    → IsRing d
    → holds d.order id ≡ false
    → length d.order < d.capacity
    → Firsts d id
unfolding first appended
first-room d id ring new room = record {
  after = appended d id;
  returns = ground (arith, ring.lockstep id, holds-window d id);
  ring = appended-IsRing d id ring new room;
  same_capacity = refl;
  moved =
      ground (arith, holds-window d id, unfolded_window (appended d id), room-moved d id ring room);
}

-- A full ring gives up the slot of its oldest id.
replaced : Dedup → String → String → Dedup
replaced d id oldest = record d {
  seen = id ∷ discard d.seen oldest;
  order = set d.order d.head id;
  head = (d.head + 1) % d.capacity;
}

module _ (d : Dedup) (id : String) (ring : IsRing d) (new : holds d.order id ≡ false)
    (full : length d.order ≡ d.capacity) (ys : List String) (y : String) (zs : List String)
    (whole : d.order ≡ ys ++ y ∷ zs) (place : length ys ≡ d.head) where
  set-whole : set d.order d.head id ≡ ys ++ id ∷ zs
  set-whole = rw (whole, ← place, set-middle ys zs y id)

  replaced-IsRing : IsRing (replaced d id y)
  unfolding replaced
  replaced-IsRing =
      let single : Single (ys ++ y ∷ zs) = rw whole at ring.single in
      record {
        positive = ring.positive;
        short = omega (arith, length-set d.order d.head id);
        unwrapped = λ h. absurd (omega (arith, length-set d.order d.head id));
        inside = grind (arith, ring.positive);
        single = rw set-whole (Single-replace ys y id zs single (rw whole at new));
        lockstep = rw set-whole (
            replaced-lockstep ys y id zs d.seen single
              (λ x. ring.lockstep x ∙ ap (λ ids. holds ids x) whole));
      }

  oldest-here : get_elem? d.order d.head ≡ some y
  oldest-here = rw (whole, ← place) (get_elem?-middle ys zs y)

  window-full : window d ≡ y ∷ zs ++ ys
  window-full =
      unfolded_window d ∙ rw (whole, ← place, drop_all ys (y ∷ zs), take_all ys (y ∷ zs)) refl

  pushed-full : pushed d.capacity id (window d) ≡ (zs ++ ys) ++ id ∷ []
  unfolding pushed
  pushed-full =
      rw window-full
        (ground (arith, ap length whole, length-append ys (y ∷ zs), length-append zs ys))

  window-replaced : window (replaced d id y) ≡ (zs ++ ys) ++ id ∷ []
  unfolding replaced
  window-replaced =
      unfolded_window (replaced d id y)
      ∙ rw (set-whole, ← place) (turned_window d.capacity ys y id zs (ap length (sym whole) ∙ full))

  first-full : Firsts d id
  unfolding first replaced
  first-full = record {
    after = replaced d id y;
    returns = ground (arith, ring.lockstep id, holds-window d id, oldest-here);
    ring = replaced-IsRing;
    same_capacity = refl;
    moved = ground (arith, holds-window d id, window-replaced, pushed-full);
  }

-- First refines the window: on a ring it never panics, it answers whether the id is outside the
-- window, a known id changes nothing and a new one is pushed, the oldest leaving a full window; and
-- the ring, with its set and order in lockstep, is kept.
pub first-Firsts : (d : Dedup) (id : String) → IsRing d → Firsts d id
first-Firsts d id ring = elim (Bool-cases (holds d.order id)) [
  | inl old ↦ first-seen d id ring old
  | inr new ↦ elim (Bool-cases (length d.order == d.capacity)) [
    | inl full ↦
        let (ys, y, zs, whole, place) =
          split_at d.head d.order (omega (arith, ring.inside, ==→eq _ _ full)) in
        first-full d id ring new (==→eq _ _ full) ys y zs whole place
    | inr short ↦ first-room d id ring new (ground (arith, ring.short))
  ]
]

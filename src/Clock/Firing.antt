-- ===== src/Clock/Firing.antt =====
-- An Advance of the fake clock that does not return (internal/clock/fake.go).
use walkie.Prelude.{
  ℕ, suc, zero, ◌+◌, ◌≤◌, ◌<◌, ◌≡◌, refl, ap, ◌∙◌, false, Option, none, some, List, [], ◌∷◌, ◌++◌,
  leb, ◌==◌, filter, filter-append, get_elem?, set, arith, Bool-cases, inl, inr,
}
use walkie.Clock.Fake.{
  TimerState, fired, pending, Chan, Waiter, Fake, reset_chan, reset, once_fired, sent_into, sent_to,
  and_rest, deliver, advanced, advance,
}

get_elem?-set_other :
    (cs : List Chan) (i j : ℕ) (c : Chan)
    → (i == j) ≡ false
    → get_elem? (set cs i c) j ≡ get_elem? cs j
get_elem?-set_other [] i j c apart = refl
get_elem?-set_other (x ∷ cs) zero zero c apart = absurd (ground (arith, apart))
get_elem?-set_other (x ∷ cs) zero (suc j) c apart = refl
get_elem?-set_other (x ∷ cs) (suc i) zero c apart = refl
get_elem?-set_other (x ∷ cs) (suc i) (suc j) c apart =
    get_elem?-set_other cs i j c (ground (arith, apart))

get_elem?-set_same :
    (cs : List Chan) (i : ℕ) (old c : Chan)
    → get_elem? cs i ≡ some old
    → get_elem? (set cs i c) i ≡ some c
get_elem?-set_same [] i old c has = absurd (ground (arith, has))
get_elem?-set_same (x ∷ cs) zero old c has = refl
get_elem?-set_same (x ∷ cs) (suc i) old c has = get_elem?-set_same cs i old c has

-- The channel holds a value that no one has taken.
abbrev pub IsFull : ℕ → List Chan → Type 0
IsFull i cs =
    (t : ℕ) × (timer : Option TimerState) × (get_elem? cs i
      ≡ some (record { buffer = some t; timer = timer }))

sent_to_full : (now i : ℕ) (cs : List Chan) → IsFull i cs → sent_to now i (get_elem? cs i) cs ≡ none
sent_to_full now i cs (t, timer, full) = ap (λ o. sent_to now i o cs) full

module _ (now i k : ℕ) (cs : List Chan) (full : IsFull i cs) (apart : (k == i) ≡ false)
    (f : List Chan → Option (List Chan))
    (blocks : (cs' : List Chan) → IsFull i cs' → f cs' ≡ none) where
  into_blocks :
      (timer : Option TimerState) (buffer : Option ℕ)
      → and_rest f (sent_into now k timer buffer cs) ≡ none
  into_blocks timer none =
      let c : Chan = record { buffer = some now; timer = once_fired timer } in
      let (t, timer', at) = full in
      blocks (set cs k c) (t, timer', get_elem?-set_other cs k i c apart ∙ at)
  into_blocks timer (some t) = refl

  head_blocks : (o : Option Chan) → and_rest f (sent_to now k o cs) ≡ none
  head_blocks none = blocks cs full
  head_blocks (some c) = into_blocks c.timer c.buffer

deliver_blocks :
    (now i at : ℕ) (ws : List Waiter) (cs : List Chan)
    → IsFull i cs
    → deliver now (ws ++ record { at = at; chan = i } ∷ []) cs ≡ none
unfolding deliver
deliver_blocks now i at [] cs full = ap (and_rest (deliver now [])) (sent_to_full now i cs full)
deliver_blocks now i at (w ∷ ws) cs full =
    let rest = deliver now (ws ++ record { at = at; chan = i } ∷ []) in
    elim (Bool-cases (w.chan == i)) [
      | inl same ↦
          let is : w.chan ≡ i = ground (arith, same) in
          ap (λ k. and_rest rest (sent_to now k (get_elem? cs k) cs)) is
          ∙ ap (and_rest rest) (sent_to_full now i cs full)
      | inr apart ↦
          head_blocks now i w.chan cs full apart rest
            (λ cs' full'. deliver_blocks now i at ws cs' full') (get_elem? cs w.chan)
    ]

-- A timer that has fired, whose value no one has taken, and that is reset to a later instant: an Advance
-- past that instant does not return, whatever else waits.
pub advance-reset :
    (f : Fake) (i t d e : ℕ)
    → get_elem? f.chans i ≡ some (record { buffer = some t; timer = some fired })
    → 0 < d
    → d ≤ e
    → advance e (reset d i f).1 ≡ none
unfolding advance reset
advance-reset f i t d e full positive le =
    let c : Chan = record { buffer = some t; timer = some fired } in
    let c' : Chan = record { buffer = some t; timer = some pending } in
    let now = f.now + e in
    let again : Waiter = record { at = f.now + d; chan = i } in
    let f' : Fake = record f { waiters = f.waiters ++ again ∷ []; chans = set f.chans i c' } in
    let later : (d == 0) ≡ false = ground (arith, positive) in
    let is_reset : (reset_chan d i (get_elem? f.chans i) f).1 ≡ f' =
      ap (λ o. (reset_chan d i o f).1) full ∙ rw later refl in
    let due : filter (λ w. leb w.at now) (f.waiters ++ again ∷ [])
        ≡ filter (λ w. leb w.at now) f.waiters ++ again ∷ [] =
      filter-append (λ w. leb w.at now) f.waiters (again ∷ []) ∙ ground (arith, le) in
    ap (advance e) is_reset
    ∙ ap (λ ws. advanced now f' (deliver now ws (set f.chans i c'))) due
    ∙ ap (advanced now f') (
        deliver_blocks now i (f.now + d) (filter (λ w. leb w.at now) f.waiters) (set f.chans i c')
          (t, some pending, get_elem?-set_same f.chans i c c' full))

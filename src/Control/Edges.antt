-- ===== src/Control/Edges.antt =====
-- Calls of Transition walk the edges of the table (internal/control/state.go).
use walkie.Prelude.{
  subst, Bool-cases, ℕ, ◌≡◌, refl, sym, ap, ◌∙◌, String, true, Option, none, some, List, [], ◌∷◌,
  ◌++◌, arith, append_assoc, ◌⊎◌, inl, inr,
}
use walkie.Control.State.{
  State, disconnected, connecting, handshaking, online, same_state, can_transition, Change, Machine,
  Outcome, refused, unchanged, panicked, moved, transition,
}

-- A call of Transition: its time, target and reason.
abbrev pub Call : Type 0
Call = ℕ × State × String

abbrev pub on_outcome : Outcome → Option (List Change)
on_outcome refused = some []
on_outcome unchanged = some []
on_outcome panicked = none
on_outcome (moved ch) = some (ch ∷ [])

abbrev pub and_then : List Change → Option (List Change × Machine) → Option (List Change × Machine)
and_then chs none = none
and_then chs (some (later, m)) = some (chs ++ later, m)

abbrev pub and_then_all :
    Option (List Change) → Option (List Change × Machine) → Option (List Change × Machine)
and_then_all none rest = none
and_then_all (some chs) rest = and_then chs rest

-- One call after another, and the changes they make; `none` once one of them panics.
unfoldable pub transitions : List Call → Machine → Option (List Change × Machine)
unfolding transition
transitions [] m = some ([], m)
transitions ((now, to, reason) ∷ calls) m =
    let rest = transitions calls (transition now to reason m).1 in
    and_then_all (on_outcome (transition now to reason m).0) rest

-- A walk along legal edges, one change for each edge.
abbrev pub Chain : State → List Change → State → Type 0
Chain from [] to = from ≡ to
Chain from (ch ∷ chs) to =
    (ch.from ≡ from) × (can_transition from ch.to ≡ true) × Chain ch.to chs to

-- What one call of Transition does to the state.
transition_cases :
    (now : ℕ) (to : State) (reason : String) (m : Machine)
    → ((on_outcome (transition now to reason m).0 ≡ some []) × ((transition now to reason m).1 ≡ m))
      ⊎ (on_outcome (transition now to reason m).0 ≡ none)
      ⊎ ((on_outcome (transition now to reason m).0
            ≡ some (record { from = m.cur; to = to; reason = reason; at = now } ∷ []))
          × (can_transition m.cur to ≡ true)
          × ((transition now to reason m).1.cur ≡ to))
unfolding transition
transition_cases now to reason m = elim (Bool-cases m.closed) [
  | inl shut ↦ inl (ground arith, ground arith)
  | inr running ↦ elim (Bool-cases (same_state m.cur to)) [
    | inl same ↦ inl (ground arith, ground arith)
    | inr other ↦ elim (Bool-cases (can_transition m.cur to)) [
      | inr illegal ↦ inr (inl (ground arith))
      | inl legal ↦ inr (inr (ground arith, legal, ground arith))
    ]
  ]
]

join : (a b c : State) (xs ys : List Change) → Chain a xs b → Chain b ys c → Chain a (xs ++ ys) c
join a b c [] ys e walk = subst (λ x. Chain x ys c) (sym e) walk
join a b c (ch ∷ xs) ys (from, legal, walk) walk' = (from, legal, join ch.to b c xs ys walk walk')

and_then-Chain :
    (from mid : State) (chs : List Change) (o : Option (List Change × Machine)) (all : List Change)
    (m' : Machine)
    → Chain from chs mid
    → ((later : List Change) → o ≡ some (later, m') → Chain mid later m'.cur)
    → and_then chs o ≡ some (all, m')
    → Chain from all m'.cur
and_then-Chain from mid chs none all m' walk rest e = absurd (ground (arith, e))
and_then-Chain from mid chs (some (later, m'')) all m' walk rest e =
    let same : chs ++ later ≡ all = ground (arith, e) in
    let there : some (later, m'') ≡ some (later, m') = ground (arith, e) in
    subst (λ x. Chain from x m'.cur) same (join from mid m'.cur chs later walk (rest later there))

-- A sequence of Transition calls, none of which panics, makes changes that walk legal edges one
-- after another, from the state the machine was in to the one it ends in, with no edge left out.
pub transitions-Chain :
    (calls : List Call) (m m' : Machine) (chs : List Change)
    → transitions calls m ≡ some (chs, m')
    → Chain m.cur chs m'.cur
unfolding transitions
transitions-Chain [] m m' chs e =
    let same : m.cur ≡ m'.cur = ground (arith, e) in
    let nothing : chs ≡ [] = ground (arith, e) in
    subst (λ x. Chain m.cur x m'.cur) (sym nothing) same
transitions-Chain ((now, to, reason) ∷ calls) m m' chs e =
    let after : Machine = (transition now to reason m).1 in
    let rest : ((later : List Change)
        → transitions calls after ≡ some (later, m')
        → Chain after.cur later m'.cur) =
      λ later e. transitions-Chain calls after m' later e in
    elim (transition_cases now to reason m) [
      | inl (still, same) ↦
          and_then-Chain m.cur after.cur [] (transitions calls after) chs m'
            (sym (ap (λ x. x.cur) same)) rest (ground (arith, e, still))
      | inr (inl panics) ↦ absurd (ground (arith, e, panics))
      | inr (inr (moves, legal, here)) ↦
          and_then-Chain m.cur after.cur
            (record { from = m.cur; to = to; reason = reason; at = now } ∷ [])
            (transitions calls after) chs m' (refl, legal, sym here) rest (ground (arith, e, moves))
    ]

here_legal :
    (from : State) (ch : Change)
    → ch.from ≡ from
    → can_transition from ch.to ≡ true
    → can_transition ch.from ch.to ≡ true
here_legal from ch here legal = rw here legal

-- The last edge of a walk.
last_edge :
    (from to : State) (ch : Change) (chs : List Change)
    → Chain from (ch ∷ chs) to
    → (before : List Change) × (last : Change) × (ch ∷ chs ≡ before ++ last ∷ [])
      × Chain from before last.from
      × (can_transition last.from last.to ≡ true)
      × (last.to ≡ to)
last_edge from to ch [] (here, legal, there) =
    ([], ch, refl, sym here, here_legal from ch here legal, there)
last_edge from to ch (ch' ∷ chs) (here, legal, walk) =
    let (before, last, whole, walk', legal', there) = last_edge ch.to to ch' chs walk in
    (ch ∷ before, last, ap (◌∷◌ ch) whole, (here, legal, walk'), legal', there)

into_online : (from to : State) → can_transition from to ≡ true → to ≡ online → from ≡ handshaking
unfolding can_transition
into_online handshaking to legal e = refl
into_online from to legal e = absurd (ground (arith, legal, e))

into_handshaking :
    (from to : State) → can_transition from to ≡ true → to ≡ handshaking → from ≡ connecting
unfolding can_transition
into_handshaking connecting to legal e = refl
into_handshaking from to legal e = absurd (ground (arith, legal, e))

to_handshaking :
    (chs : List Change)
    → Chain disconnected chs handshaking
    → (before : List Change) × (dialled : Change) × (chs ≡ before ++ dialled ∷ [])
      × (dialled.from ≡ connecting)
      × (dialled.to ≡ handshaking)
to_handshaking [] e = absurd (ground (arith, e))
to_handshaking (ch ∷ chs) walk =
    let (before, last, whole, walk', legal, there) =
      last_edge disconnected handshaking ch chs walk in
    (before, last, whole, into_handshaking last.from last.to legal there, there)

-- The only way online: a walk from disconnected to online ends in the change from handshaking to
-- online, and the one before it is the change from connecting to handshaking.
pub online_after_handshake :
    (chs : List Change)
    → Chain disconnected chs online
    → (before : List Change) × (dialled : Change) × (shaken : Change) × (chs
        ≡ before ++ dialled ∷ shaken ∷ [])
      × (dialled.from ≡ connecting)
      × (dialled.to ≡ handshaking)
      × (shaken.from ≡ handshaking)
      × (shaken.to ≡ online)
online_after_handshake [] e = absurd (ground (arith, e))
online_after_handshake (ch ∷ chs) walk =
    let (before, shaken, whole, walk', legal, there) = last_edge disconnected online ch chs walk in
    let here : shaken.from ≡ handshaking = into_online shaken.from shaken.to legal there in
    let (before', dialled, whole', from, to) =
      to_handshaking before (subst (λ x. Chain disconnected before x) here walk') in
    (
      before',
      dialled,
      shaken,
      whole ∙ rw (whole', append_assoc before' (dialled ∷ []) (shaken ∷ [])) refl,
      from,
      to,
      here,
      there,
    )

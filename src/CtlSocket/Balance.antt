-- ===== src/CtlSocket/Balance.antt =====
-- The accounts of a stream through every turn (internal/ctlsocket/server.go).
use walkie.Prelude.{
  ℕ, ◌≡◌, refl, sym, ap, ◌∙◌, subst, Bool, true, false, Option, none, some, List, [], ◌∷◌, ◌++◌,
  append_assoc, arith, if-intro, some_eq,
}
use walkie.CtlSocket.Subscriber.{Line, new_subscriber, take, close}
use walkie.CtlSocket.Stream.{
  Phase, registered, seeded, flushing, waiting, woken, delivering, over, Stream, put, Turn, publish,
  seed, advance, write, shut, end, turn, seed_at, select, advance_at, write_at, end_at, delivered,
  Reached, start, next, is_gap, IsPlain,
}
use walkie.CtlSocket.Accounts.{
  none_yet, in_hand, IsBalanced, put-IsBalanced, moved-IsBalanced, take-IsBalanced,
}

-- Whatever stream comes of it is balanced.
abbrev Keeps : ℕ → Option Stream → Type 0
Keeps queue_cap o = (s : Stream) → o ≡ some s → IsBalanced queue_cap s

some-Keeps : (queue_cap : ℕ) (s : Stream) → IsBalanced queue_cap s → Keeps queue_cap (some s)
some-Keeps queue_cap s b s' e = subst (IsBalanced queue_cap) (some_eq e) b

none-Keeps : (queue_cap : ℕ) → Keeps queue_cap none
none-Keeps queue_cap s e = absurd (ground (arith, e))

module _ (queue_cap : ℕ) (s : Stream) (b : IsBalanced queue_cap s) where
  -- Only the phase changes, between two that hold nothing.
  rephased :
      (s' : Stream)
      → in_hand s.phase ≡ []
      → in_hand s'.phase ≡ []
      → s'.written ≡ s.written
      → s'.published ≡ s.published
      → s'.sub.queue ≡ s.sub.queue
      → s'.sub.dropped ≡ s.sub.dropped
      → s'.sub.queue_cap ≡ s.sub.queue_cap
      → Keeps queue_cap (some s')
  rephased s' empty empty' written published queue dropped cap = some-Keeps queue_cap s' (
      moved-IsBalanced queue_cap s s' b published (rw (written, empty, empty') refl) queue dropped
        cap)

  select-Keeps : in_hand s.phase ≡ [] → Keeps queue_cap (select s)
  select-Keeps empty =
      if-intro (Keeps queue_cap) s.sub.sig
        (some (record s { sub = record s.sub { sig = false }; phase = woken })) none
        (λ _.
          rephased (record s { sub = record s.sub { sig = false }; phase = woken }) empty refl refl
            refl refl refl refl)
        (λ _. none-Keeps queue_cap)

  seed_at-Keeps :
      (p : Phase) (line : Line)
      → s.phase ≡ p
      → is_gap line ≡ false
      → Keeps queue_cap (seed_at p line s)
  seed_at-Keeps registered line is plain =
      some-Keeps queue_cap (record (put line s) { phase = seeded })
        (moved-IsBalanced queue_cap (put line s) (record (put line s) { phase = seeded })
          (put-IsBalanced queue_cap line s b plain) refl (ap (λ p. s.written ++ in_hand p) (sym is))
          refl refl refl)
  seed_at-Keeps _ line is plain = none-Keeps queue_cap

  delivered-empty : in_hand (delivered s).phase ≡ []
  delivered-empty = ground arith

  advance_at-Keeps : (p : Phase) → s.phase ≡ p → Keeps queue_cap (advance_at p s)
  advance_at-Keeps seeded is =
      some-Keeps queue_cap (record s { sub = (take s.sub).1; phase = flushing (take s.sub).0 })
        (take-IsBalanced queue_cap s (flushing (take s.sub).0) b (ap in_hand is) refl)
  advance_at-Keeps (flushing []) is =
      rephased (record s { phase = waiting }) (ap in_hand is) refl refl refl refl refl refl
  advance_at-Keeps waiting is = select-Keeps (ap in_hand is)
  advance_at-Keeps woken is =
      some-Keeps queue_cap (record s { sub = (take s.sub).1; phase = delivering (take s.sub).0 })
        (take-IsBalanced queue_cap s (delivering (take s.sub).0) b (ap in_hand is) refl)
  advance_at-Keeps (delivering []) is =
      rephased (delivered s) (ap in_hand is) delivered-empty refl refl refl refl refl
  advance_at-Keeps _ is = none-Keeps queue_cap

  -- A line goes from what is in hand to what is written.
  written_on :
      (line : Line) (lines : List Line) (p : Phase)
      → in_hand s.phase ≡ line ∷ lines
      → in_hand p ≡ lines
      → Keeps queue_cap (some (record s { phase = p; written = s.written ++ line ∷ [] }))
  written_on line lines p hand hand' =
      some-Keeps queue_cap (record s { phase = p; written = s.written ++ line ∷ [] })
        (moved-IsBalanced queue_cap s (record s { phase = p; written = s.written ++ line ∷ [] }) b
          refl
          (ap (λ x. (s.written ++ line ∷ []) ++ x) hand'
            ∙ append_assoc s.written (line ∷ []) lines
            ∙ ap (λ x. s.written ++ x) (sym hand))
          refl refl refl)

  write_at-Keeps : (p : Phase) (ok : Bool) → s.phase ≡ p → Keeps queue_cap (write_at p ok s)
  write_at-Keeps (flushing (line ∷ lines)) true is =
      written_on line lines (flushing lines) (ap in_hand is) refl
  write_at-Keeps (flushing (line ∷ lines)) false is =
      some-Keeps queue_cap (record s { phase = over (line ∷ lines) })
        (moved-IsBalanced queue_cap s (record s { phase = over (line ∷ lines) }) b refl
          (ap (λ p. s.written ++ in_hand p) (sym is)) refl refl refl)
  write_at-Keeps (delivering (line ∷ lines)) true is =
      written_on line lines (delivering lines) (ap in_hand is) refl
  write_at-Keeps (delivering (line ∷ lines)) false is =
      some-Keeps queue_cap (record s { sub = close s.sub; phase = over (line ∷ lines) })
        (moved-IsBalanced queue_cap s (record s { sub = close s.sub; phase = over (line ∷ lines) })
          b refl (ap (λ p. s.written ++ in_hand p) (sym is)) refl refl refl)
  write_at-Keeps _ ok is = none-Keeps queue_cap

  end_at-Keeps : (p : Phase) → s.phase ≡ p → Keeps queue_cap (end_at p s)
  end_at-Keeps waiting is =
      if-intro (Keeps queue_cap) s.sub.closed (some (record s { phase = over [] })) none
        (λ _. rephased (record s { phase = over [] }) (ap in_hand is) refl refl refl refl refl refl)
        (λ _. none-Keeps queue_cap)
  end_at-Keeps _ is = none-Keeps queue_cap

  turn-Keeps : (t : Turn) → IsPlain t → Keeps queue_cap (turn t s)
  unfolding turn
  turn-Keeps (publish line) plain =
      some-Keeps queue_cap (put line s) (put-IsBalanced queue_cap line s b plain)
  turn-Keeps (seed line) plain = seed_at-Keeps s.phase line refl plain
  turn-Keeps advance plain = advance_at-Keeps s.phase refl
  turn-Keeps (write ok) plain = write_at-Keeps s.phase ok refl
  turn-Keeps shut plain =
      some-Keeps queue_cap (record s { sub = close s.sub })
        (moved-IsBalanced queue_cap s (record s { sub = close s.sub }) b refl refl refl refl refl)
  turn-Keeps end plain = end_at-Keeps s.phase refl

-- However the publishers, subscribe, the pump, failing writes and the closing of the connection take
-- turns, no event is lost in silence: the events published, with the snapshot among them, are, in
-- order, those the writer has taken, written or in hand, and then those that are queued, but for
-- some left out; and as many are left out as the gap reports taken add up to, with the count that is
-- still to be reported. At most `queue_cap` events are queued.
pub Reached-IsBalanced : {queue_cap : ℕ} {s : Stream} → Reached queue_cap s → IsBalanced queue_cap s
unfolding new_subscriber
Reached-IsBalanced start = record { thinned = none_yet; plain = tt; fits = omega arith; cap = refl }
Reached-IsBalanced {queue_cap = queue_cap} {s = s'} (next {s = s} before t plain took) =
    turn-Keeps queue_cap s (Reached-IsBalanced before) t plain s' took

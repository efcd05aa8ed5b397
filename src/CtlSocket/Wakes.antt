-- ===== src/CtlSocket/Wakes.antt =====
-- The writer of a stream is never stuck on lines that wait (internal/ctlsocket/server.go).
use walkie.Prelude.{
  ℕ, ◌+◌, ◌<◌, ◌≡◌, refl, ap, ◌∙◌, subst, Bool, true, false, Option, none, some, [], ◌∷◌,
  if◌then◌else◌, length, arith, if-intro, some_eq,
}
use walkie.CtlSocket.Subscriber.{Line, new_subscriber, enqueue, take, close}
use walkie.CtlSocket.Stream.{
  Phase, registered, seeded, flushing, waiting, woken, delivering, over, Stream, put, Turn, publish,
  seed, advance, write, shut, end, turn, seed_at, advance_at, write_at, end_at, delivered, Reached,
  start, next,
}

abbrev is_woken : Phase → Bool
is_woken woken = true
is_woken _ = false

-- How many lines or drops wait in the queue.
abbrev pub due : Stream → ℕ
due s = length s.sub.queue + s.sub.dropped

abbrev IsAwake : Stream → Type 0
IsAwake s = is_woken s.phase ≡ false → 0 < due s → s.sub.sig ≡ true

abbrev Leads : Option Stream → Type 0
Leads o = (s : Stream) → o ≡ some s → IsAwake s

some-Leads : (s : Stream) → IsAwake s → Leads (some s)
some-Leads s a s' e = subst IsAwake (some_eq e) a

none-Leads : Leads none
none-Leads s e = absurd (ground (arith, e))

module _ (s : Stream) (a : IsAwake s) where
  put-IsAwake : (line : Line) → IsAwake (put line s)
  unfolding enqueue
  put-IsAwake line _ _ = refl

  seed_at-Leads : (p : Phase) (line : Line) → Leads (seed_at p line s)
  unfolding enqueue
  seed_at-Leads registered line = some-Leads (record (put line s) { phase = seeded }) (λ _ _. refl)
  seed_at-Leads _ line = none-Leads

  advance_at-Leads : (p : Phase) → s.phase ≡ p → Leads (advance_at p s)
  unfolding take
  advance_at-Leads seeded is =
      some-Leads (record s { sub = (take s.sub).1; phase = flushing (take s.sub).0 })
        (λ _ d. absurd (omega (arith, d)))
  advance_at-Leads (flushing []) is =
      some-Leads (record s { phase = waiting }) (λ _ d. a (ap is_woken is) d)
  advance_at-Leads waiting is =
      if-intro Leads s.sub.sig
        (some (record s { sub = record s.sub { sig = false }; phase = woken })) none
        (λ _.
          some-Leads (record s { sub = record s.sub { sig = false }; phase = woken })
            (λ e _. absurd (ground (arith, e))))
        (λ _. none-Leads)
  advance_at-Leads woken is =
      some-Leads (record s { sub = (take s.sub).1; phase = delivering (take s.sub).0 })
        (λ _ d. absurd (omega (arith, d)))
  advance_at-Leads (delivering []) is = some-Leads (delivered s) (λ _ d. a (ap is_woken is) d)
  advance_at-Leads _ is = none-Leads

  write_at-Leads : (p : Phase) (ok : Bool) → s.phase ≡ p → Leads (write_at p ok s)
  write_at-Leads (flushing (line ∷ lines)) true is = some-Leads _ (λ _ d. a (ap is_woken is) d)
  write_at-Leads (flushing (line ∷ lines)) false is = some-Leads _ (λ _ d. a (ap is_woken is) d)
  write_at-Leads (delivering (line ∷ lines)) true is = some-Leads _ (λ _ d. a (ap is_woken is) d)
  write_at-Leads (delivering (line ∷ lines)) false is = some-Leads _ (λ _ d. a (ap is_woken is) d)
  write_at-Leads _ ok is = none-Leads

  end_at-Leads : (p : Phase) → s.phase ≡ p → Leads (end_at p s)
  end_at-Leads waiting is =
      if-intro Leads s.sub.closed (some (record s { phase = over [] })) none
        (λ _. some-Leads (record s { phase = over [] }) (λ _ d. a (ap is_woken is) d))
        (λ _. none-Leads)
  end_at-Leads _ is = none-Leads

  turn-Leads : (t : Turn) → Leads (turn t s)
  unfolding turn
  turn-Leads (publish line) = some-Leads (put line s) (put-IsAwake line)
  turn-Leads (seed line) = seed_at-Leads s.phase line
  turn-Leads advance = advance_at-Leads s.phase refl
  turn-Leads (write ok) = write_at-Leads s.phase ok refl
  turn-Leads shut = some-Leads (record s { sub = close s.sub }) a
  turn-Leads end = end_at-Leads s.phase refl

Reached-IsAwake : {queue_cap : ℕ} {s : Stream} → Reached queue_cap s → IsAwake s
unfolding new_subscriber
Reached-IsAwake start = λ _ d. absurd (omega (arith, d))
Reached-IsAwake {s = s'} (next {s = s} before t plain took) =
    turn-Leads s (Reached-IsAwake before) t s' took

-- The writer has begun, and is not over.
abbrev pub is_live : Phase → Bool
is_live registered = false
is_live (over lines) = false
is_live _ = true

-- A turn of the writer, its write succeeding.
abbrev pub writer_turn : Phase → Turn
writer_turn (flushing (line ∷ lines)) = write true
writer_turn (delivering (line ∷ lines)) = write true
writer_turn _ = advance

writer_goes :
    (s : Stream) (p : Phase)
    → s.phase ≡ p
    → is_live p ≡ true
    → (p ≡ waiting → s.sub.sig ≡ true)
    → (s' : Stream) × (turn (writer_turn p) s ≡ some s')
unfolding turn
writer_goes s registered is live sig = absurd (ground (arith, live))
writer_goes s (over lines) is live sig = absurd (ground (arith, live))
writer_goes s seeded is live sig = (_, ap (λ p. advance_at p s) is)
writer_goes s (flushing []) is live sig = (_, ap (λ p. advance_at p s) is)
writer_goes s (flushing (line ∷ lines)) is live sig = (_, ap (λ p. write_at p true s) is)
writer_goes s waiting is live sig = (
  record s { sub = record s.sub { sig = false }; phase = woken },
  ap (λ p. advance_at p s) is
      ∙ ap
          (λ b.
            if b
            then some (record s { sub = record s.sub { sig = false }; phase = woken })
            else none)
          (sig refl),
)
writer_goes s woken is live sig = (_, ap (λ p. advance_at p s) is)
writer_goes s (delivering []) is live sig = (_, ap (λ p. advance_at p s) is)
writer_goes s (delivering (line ∷ lines)) is live sig = (_, ap (λ p. write_at p true s) is)

-- A wake-up is never lost: in whatever state a live writer of a stream is, with a line or a drop still
-- to be delivered, it has a turn to take, and that is not the end.
pub writer_goes_on :
    {queue_cap : ℕ} {s : Stream}
    → Reached queue_cap s
    → is_live s.phase ≡ true
    → 0 < due s
    → (s' : Stream) × (turn (writer_turn s.phase) s ≡ some s')
writer_goes_on {s = s} reached live d =
    writer_goes s s.phase refl live (λ e. Reached-IsAwake reached (ap is_woken e) d)

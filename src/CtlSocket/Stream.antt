-- ===== src/CtlSocket/Stream.antt =====
-- One subscribed connection as turns: the publishers, the rest of subscribe, and the pump
-- (internal/ctlsocket/server.go).
use walkie.Prelude.{
  ℕ, Bool, true, false, ◌≡◌, Option, none, some, List, [], ◌∷◌, ◌++◌, ◌==◌, if◌then◌else◌,
}
use walkie.CtlSocket.Subscriber.{
  Line, gap, Subscriber, new_subscriber, enqueue, take, close, pending,
}

-- Where the writer of the stream stands: registered, and before its snapshot; before the take of
-- subscribe; writing what it took; then the pump, at its select, past it, or writing a batch; or
-- over, with the lines that it did not write.
pub data Phase : Type 0 where
  registered seeded waiting woken : Phase
  flushing delivering over : List Line → Phase

-- `published` is every line that was put to the queue, in order.
pub record Stream : Type 0 where
  pub sub : Subscriber
  pub phase : Phase
  pub published : List Line
  pub written : List Line

pub data Turn : Type 0 where
  publish : Line → Turn
  seed : Line → Turn
  advance : Turn
  write : (ok : Bool) → Turn
  shut end : Turn

abbrev pub new_stream : ℕ → Stream
new_stream queue_cap = record {
  sub = new_subscriber queue_cap;
  phase = registered;
  published = [];
  written = [];
}

abbrev pub put : Line → Stream → Stream
put line s = record s { sub = enqueue line s.sub; published = s.published ++ line ∷ [] }

-- The snapshot of subscribe.
abbrev pub seed_at : Phase → Line → Stream → Option Stream
seed_at registered line s = some (record (put line s) { phase = seeded })
seed_at _ line s = none

-- The select of the pump, which finds a token; where `done` is closed as well, Go may choose either.
abbrev pub select : Stream → Option Stream
select s =
    if s.sub.sig
    then some (record s { sub = record s.sub { sig = false }; phase = woken })
    else none

abbrev pub delivered : Stream → Stream
delivered s = record s {
  phase = if pending s.sub == 0 then if s.sub.closed then over [] else waiting else waiting;
}

-- The turns of the writer but for its writes; `none` where it waits.
abbrev pub advance_at : Phase → Stream → Option Stream
advance_at seeded s = some (record s { sub = (take s.sub).1; phase = flushing (take s.sub).0 })
advance_at (flushing []) s = some (record s { phase = waiting })
advance_at waiting s = select s
advance_at woken s = some (record s { sub = (take s.sub).1; phase = delivering (take s.sub).0 })
advance_at (delivering []) s = some (delivered s)
advance_at _ s = none

-- A write of the writer's next line; `ok` tells whether it succeeds, and one that does not ends it.
abbrev pub write_at : Phase → Bool → Stream → Option Stream
write_at (flushing (line ∷ lines)) true s =
    some (record s { phase = flushing lines; written = s.written ++ line ∷ [] })
write_at (flushing (line ∷ lines)) false s = some (record s { phase = over (line ∷ lines) })
write_at (delivering (line ∷ lines)) true s =
    some (record s { phase = delivering lines; written = s.written ++ line ∷ [] })
write_at (delivering (line ∷ lines)) false s =
    some (record s { sub = close s.sub; phase = over (line ∷ lines) })
write_at _ ok s = none

abbrev pub end_at : Phase → Stream → Option Stream
end_at waiting s = if s.sub.closed then some (record s { phase = over [] }) else none
end_at _ s = none

-- One turn; `none` is one that cannot be taken.
unfoldable pub turn : Turn → Stream → Option Stream
unfolding enqueue take
turn (publish line) s = some (put line s)
turn (seed line) s = seed_at s.phase line s
turn advance s = advance_at s.phase s
turn (write ok) s = write_at s.phase ok s
turn shut s = some (record s { sub = close s.sub })
turn end s = end_at s.phase s

abbrev pub is_gap : Line → Bool
is_gap (gap n) = true
is_gap _ = false

-- No one but take makes a gap report.
abbrev pub IsPlain : Turn → Type 0
IsPlain (publish line) = is_gap line ≡ false
IsPlain (seed line) = is_gap line ≡ false
IsPlain _ = Unit

pub data Reached (queue_cap : ℕ) : Stream → Type 0 where
  start : Reached queue_cap (new_stream queue_cap)
  next :
      {s s' : Stream} (before : Reached queue_cap s) (t : Turn) (plain : IsPlain t)
      (took : turn t s ≡ some s')
      → Reached queue_cap s'

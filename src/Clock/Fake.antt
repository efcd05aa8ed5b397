-- ===== src/Clock/Fake.antt =====
-- The fake clock (internal/clock/fake.go). A duration that is not positive is 0 here. A timer is named by
-- its channel, and a channel by its place among all that were made.
use walkie.Prelude.{
  ℕ, ◌+◌, Bool, true, false, Option, none, some, List, [], ◌∷◌, ◌++◌, ltb, leb, ◌==◌, if◌then◌else◌,
  filter, length, get_elem?, set,
}

pub data TimerState : Type 0 where
  stopped pending fired : TimerState

-- A channel of capacity 1 with what it holds, and the state of the timer that it belongs to, if it
-- belongs to one.
pub record Chan : Type 0 where
  pub buffer : Option ℕ
  pub timer : Option TimerState

pub record Waiter : Type 0 where
  pub at : ℕ
  pub chan : ℕ

pub record Fake : Type 0 where
  pub now : ℕ
  pub waiters : List Waiter
  pub chans : List Chan

-- NewFake
abbrev pub new_fake : ℕ → Fake
new_fake start = record { now = start; waiters = []; chans = [] }

-- A new channel that receives at instant `at`, or now.
abbrev pub opened : Bool → ℕ → Option TimerState → Option TimerState → Fake → ℕ × Fake
opened true at at_once later f = (
  length f.chans,
  record f { chans = f.chans ++ record { buffer = some f.now; timer = at_once } ∷ [] },
)
opened false at at_once later f = (
  length f.chans,
  record f {
    waiters = f.waiters ++ record { at = at; chan = length f.chans } ∷ [];
    chans = f.chans ++ record { buffer = none; timer = later } ∷ [];
  },
)

unfoldable pub new_timer : ℕ → Fake → ℕ × Fake
new_timer d f = opened (d == 0) (f.now + d) (some fired) (some pending) f

unfoldable pub after : ℕ → Fake → ℕ × Fake
after d f = opened (d == 0) (f.now + d) none none f

unfoldable pub until : ℕ → Fake → ℕ × Fake
until t f = opened (leb t f.now) t none none f

-- removeWaiter
unfoldable pub remove_waiter : ℕ → List Waiter → List Waiter
remove_waiter i [] = []
remove_waiter i (w ∷ ws) = let rest = remove_waiter i ws in if w.chan == i then ws else w ∷ rest

abbrev pub is_pending : Option TimerState → Bool
is_pending (some pending) = true
is_pending _ = false

abbrev pub stop_chan : ℕ → Option Chan → Fake → Bool × Fake
stop_chan i none f = (false, f)
stop_chan i (some c) f =
    if is_pending c.timer
    then (
      true,
      record f {
        waiters = remove_waiter i f.waiters;
        chans = set f.chans i (record c { timer = some stopped });
      },
    )
    else (false, f)

-- Stop
unfoldable pub stop : ℕ → Fake → Bool × Fake
unfolding remove_waiter
stop i f = stop_chan i (get_elem? f.chans i) f

-- A send that a full channel drops.
abbrev pub offered : ℕ → Option ℕ → Option ℕ
offered now none = some now
offered now (some t) = some t

abbrev pub reset_chan : ℕ → ℕ → Option Chan → Fake → Bool × Fake
reset_chan d i none f = (false, f)
reset_chan d i (some c) f =
    let ws = if is_pending c.timer then remove_waiter i f.waiters else f.waiters in
    (
      is_pending c.timer,
      if d == 0
          then record f {
            waiters = ws;
            chans = set f.chans i (record { buffer = offered f.now c.buffer; timer = some fired });
          }
          else record f {
            waiters = ws ++ record { at = f.now + d; chan = i } ∷ [];
            chans = set f.chans i (record c { timer = some pending });
          },
    )

-- Reset
unfoldable pub reset : ℕ → ℕ → Fake → Bool × Fake
unfolding remove_waiter
reset d i f = reset_chan d i (get_elem? f.chans i) f

abbrev pub once_fired : Option TimerState → Option TimerState
once_fired none = none
once_fired (some s) = some fired

-- ch <- now, on a channel that holds this; `none` blocks.
abbrev pub sent_into : ℕ → ℕ → Option TimerState → Option ℕ → List Chan → Option (List Chan)
sent_into now i timer none cs =
    some (set cs i (record { buffer = some now; timer = once_fired timer }))
sent_into now i timer (some t) cs = none

abbrev pub sent_to : ℕ → ℕ → Option Chan → List Chan → Option (List Chan)
sent_to now i none cs = some cs
sent_to now i (some c) cs = sent_into now i c.timer c.buffer cs

abbrev pub and_rest : (List Chan → Option (List Chan)) → Option (List Chan) → Option (List Chan)
and_rest f none = none
and_rest f (some cs) = f cs

-- The sends of Advance; `none` is one that blocks on a full channel.
unfoldable pub deliver : ℕ → List Waiter → List Chan → Option (List Chan)
deliver now [] cs = some cs
deliver now (w ∷ ws) cs = and_rest (deliver now ws) (sent_to now w.chan (get_elem? cs w.chan) cs)

abbrev pub advanced : ℕ → Fake → Option (List Chan) → Option Fake
advanced now f none = none
advanced now f (some cs) =
    some (record { now = now; waiters = filter (λ w. ltb now w.at) f.waiters; chans = cs })

-- Advance; `none` is a call that does not return.
unfoldable pub advance : ℕ → Fake → Option Fake
unfolding deliver
advance d f =
    let now = f.now + d in
    advanced now f (deliver now (filter (λ w. leb w.at now) f.waiters) f.chans)

-- Waiters
abbrev pub outstanding : Fake → ℕ
outstanding f = length f.waiters

-- ===== src/App/Drains.antt =====
-- The subscription that starts the drains, and the drains, each a goroutine (cmd/walkie/app.go). A
-- goroutine runs in turns, and between two of them any other handler or drain may run.
use walkie.Prelude.{
  ℕ, suc, zero, Bool, true, false, Option, none, some, List, [], ◌∷◌, ◌++◌, if◌then◌else◌,
}
use walkie.Wire.{Bytes, Envelope}
use walkie.Queue.Framing.{Codec}
use walkie.Client.Outbox.{Outbox, pending, remove}
use walkie.Control.State.{State, online}
use walkie.App.Acked.{Link, send}
use walkie.App.Assembled.{App, Moment, announce_key}

-- Where a goroutine of drainOutbox is: before its CompareAndSwap, at the head of its loop with the
-- envelopes of Pending it has not yet sent, behind a send that succeeded, or back from the call.
pub data Drain : Type 0 where
  starting returned : Drain
  sending : (unsent : List Envelope) → Drain
  removing : (env : Envelope) (unsent : List Envelope) → Drain

-- A return behind the CompareAndSwap, with the deferred Store.
abbrev pub stopped : App → Drain × App
stopped a = (returned, record a { draining = false })

abbrev pub claimed : Option (List Envelope) → App → Drain × App
claimed none a = stopped a
claimed (some envs) a = (sending envs, record a { draining = true })

abbrev pub sent_by : Envelope → List Envelope → Bool × Link → App → Drain × App
sent_by env envs (false, link) a = stopped a
sent_by env envs (true, link) a = (removing env envs, record a { link = link })

-- One turn of drainOutbox: the CompareAndSwap with the read of Pending, one send, or one removal.
-- `reads` and `removes` tell which statements of the outbox succeed, `goes` which sends do.
unfoldable pub drain_turn :
    Codec → Bool → (Envelope → Bool) → (Envelope → Bool) → Drain → App → Drain × App
unfolding pending remove send
drain_turn codec reads goes removes starting a =
    if a.draining then (returned, a) else claimed (pending codec reads a.box) a
drain_turn codec reads goes removes (sending []) a = stopped a
drain_turn codec reads goes removes (sending (env ∷ envs)) a =
    sent_by env envs (send goes env a.link) a
drain_turn codec reads goes removes (removing env envs) a =
    if removes env
    then (sending envs, record a { box = remove env.message_id a.box })
    else stopped a
drain_turn codec reads goes removes returned a = (returned, a)

-- The body of the loop of WatchConn: the goroutines it starts, and the app after.
unfoldable pub watch_conn : Bytes → Moment → State → App → List Drain × App
unfolding announce_key
watch_conn pub_key m online a = (starting ∷ [], announce_key m pub_key a)
watch_conn pub_key m _ a = ([], a)

module _ (codec : Codec) (reads : Bool) (goes removes : Envelope → Bool) where
  -- So many turns of one drain, with nothing else between them.
  unfoldable pub run_drain : ℕ → Drain → App → Drain × App
  unfolding drain_turn
  run_drain zero d a = (d, a)
  run_drain (suc n) d a = let r = drain_turn codec reads goes removes d a in run_drain n r.0 r.1

-- The turns that a loop over these envelopes takes at most: a send and a removal of each, and the end.
abbrev pub loop_turns : List Envelope → ℕ
loop_turns [] = 1
loop_turns (env ∷ envs) = suc (suc (loop_turns envs))

-- What a drain that has returned leaves of the app, from the frames it sent and the outbox after.
abbrev pub after_drain : App → List Envelope → Outbox → App
after_drain a frames box = record a {
  link = record a.link { sent = a.link.sent ++ frames };
  box = box;
  draining = false;
}

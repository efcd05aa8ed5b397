-- ===== src/App/Acked.antt =====
-- The acknowledged position of a client (internal/control/client.go).
use walkie.Prelude.{ℕ, Bool, List, [], ◌∷◌, ◌++◌, leb, if◌then◌else◌}
use walkie.Wire.{Envelope, just, queue_ack}

-- `acked`, and the frames that the session has taken.
pub record Link : Type 0 where
  pub acked : ℕ
  pub sent : List Envelope

-- send, with whether it succeeds; `goes` tells whether there is a session and its write succeeds.
unfoldable pub send : (Envelope → Bool) → Envelope → Link → Bool × Link
send goes env l = (goes env, if goes env then record l { sent = l.sent ++ env ∷ [] } else l)

-- Acknowledge; a CompareAndSwap that loses its race changes nothing, and the loop reads again.
unfoldable pub acknowledge : (Envelope → Bool) → ℕ → Link → Link
unfolding send
acknowledge goes position l =
    if leb position l.acked
    then l
    else (send goes (just (queue_ack position)) (record l { acked = position })).1

-- RestoreAckPosition
unfoldable pub restore_ack_position : ℕ → Link → Link
restore_ack_position position l = if leb position l.acked then l else record l { acked = position }

-- LastAcked
abbrev pub last_acked : Link → ℕ
last_acked l = l.acked

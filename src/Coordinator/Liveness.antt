-- ===== src/Coordinator/Liveness.antt =====
-- What a client's frame can do to the presence tracker (internal/coordinator/server.go).
use walkie.Prelude.{ℕ, ◌≡◌, String, false, ◌⊎◌}
use walkie.Wire.{Payload, heartbeat}
use walkie.Presence.Tracker.{Tracker, device_state, renewed}
use walkie.Presence.Live.{SameFacts}
use walkie.Keystore.Pins.{Keystore}

-- The facts of every device are as they were, or the frame was a heartbeat, the device is the
-- one the connection was authenticated as, and its lease is renewed from now.
abbrev pub Leaves : ℕ → String → Payload → Tracker → Tracker → Type 0
Leaves now sender payload t t' =
    (a : String)
    → SameFacts (device_state a t) (device_state a t')
      ⊎ ((payload ≡ heartbeat)
          × (a ≡ sender)
          × (t.closed ≡ false)
          × (device_state a t' ≡ renewed t.ttl now (device_state a t)))

-- ===== src/Presence/Reached.antt =====
-- Runs of the presence tracker: its operations and the firing of its timers, in any order.
use walkie.Prelude.{◌⊎◌, ℕ, suc, ◌≤◌, ◌≡◌, String, Bool, some, List, [], ◌∷◌}
use walkie.Wire.{Bytes}
use walkie.Presence.Tracker.{
  Watch, Tables, Tracker, observe_heartbeat, connection_established, connection_lost, expire,
  close_tracker,
}
use walkie.Presence.Status.{set_status, subscribe, unsubscribe, new_tracker}

-- `w` was started.
abbrev pub IsStarted : Watch → List Watch → Type 0
IsStarted w [] = ⊥
IsStarted w (v ∷ ws) = (v ≡ w) ⊎ IsStarted w ws

-- An operation of the tracker or a fired timer, with the clock's time and whether its write succeeds.
pub data Event : Type 0 where
  heartbeat connect disconnect : (now : ℕ) (stored : Bool) (device : String) → Event
  fire : (now : ℕ) (stored : Bool) (watch : Watch) → Event
  status : (now : ℕ) (stored : Bool) (device : String) (text : Bytes) → Event
  subscription unsubscription : (s : ℕ) → Event
  close : Event

unfoldable pub step : Event → Tracker → Tracker
unfolding observe_heartbeat connection_established connection_lost expire set_status subscribe
    unsubscribe close_tracker
step (heartbeat now stored device) t = observe_heartbeat now stored device t
step (connect now stored device) t = connection_established now stored device t
step (disconnect now stored device) t = connection_lost now stored device t
step (fire now stored watch) t = expire stored watch.device watch.gen t
step (status now stored device text) t = (set_status now stored device text t).1
step (subscription s) t = subscribe s t
step (unsubscription s) t = unsubscribe s t
step close t = close_tracker t

-- Only a watch that was started fires, and not before its deadline. That its timer may have been
-- stopped meanwhile is not asked: the code's `select` may find it fired all the same.
abbrev pub Enabled : Event → Tracker → Type 0
Enabled (fire now stored watch) t = IsStarted watch t.started × (watch.deadline ≤ now)
Enabled _ t = Unit

-- `n` events after a start.
pub data Reached : ℕ → Tracker → Type 0 where
  start :
      {t : Tracker} (reads : Bool) (ttl : ℕ) (tables : Tables)
      (made : new_tracker reads ttl tables ≡ some t)
      → Reached 0 t
  next :
      {n : ℕ} {t : Tracker} (before : Reached n t) (e : Event) (can : Enabled e t)
      → Reached (suc n) (step e t)

-- ===== src/Client/Tests.antt =====
-- Runs of the client and of its watchdog on small inputs.
use walkie.Prelude.{ℕ, ◌+◌, ◌*◌, ◌≤◌, ◌<◌, ◌≡◌, refl, true, false, some, [], ◌∷◌, ◌⊎◌}
use walkie.Control.State.{new_machine, online, transition, can_transition}
use walkie.Client.Config.{Config, validate}
use walkie.Client.Watchdog.{
  Watchdog, beginning, beat, push_beat, start_watchdog, send_failed, watch_dead, stop,
}
use walkie.Client.Beats.{beat_ends}
use walkie.Client.Supervisor.{
  Client, new_client, turn, waits, redials, dials, shakes, silent, read_fails, over, waiting,
  degrade, serving,
}
use walkie.Client.Patience.{Reached, start, next, patient_never_crashes, hasty_redial_crashes}

abbrev brief : Config
brief = record {
  backoff_base = 1;
  backoff_cap = 8;
  heartbeat_period = 10;
  dead_peer_interval = 30;
  handshake_timeout = 5;
}

beat_ends_example :
    (k : ℕ) × (w' : Watchdog) × (beat 27 brief 25 (beginning brief 0) ≡ some w')
    × (w'.next_beat ≡ 10 + k * 10)
    × (25 < w'.next_beat)
    × ((w'.next_beat ≡ 10) ⊎ (w'.next_beat ≤ 35))
    × (w'.hb_timer ≡ some w'.next_beat)
unfolding validate
beat_ends_example = beat_ends brief 25 (beginning brief 0) refl refl

-- A heartbeat due at 10 that runs at 25 is next due at 30.
late_beat : (w : Watchdog) × (beat 27 brief 25 (beginning brief 0) ≡ some w) × (w.next_beat ≡ 30)
unfolding beat push_beat
late_beat = (_, refl, refl)

-- A served session whose peer was silent until 33, with the verdict claimed and the read loop failed
-- before it was carried out.
abbrev condemned : Client
condemned = record new_client {
  mach = record new_machine { cur = online };
  phase = waiting;
  identity = "ann";
  watchdog = record (stop (beginning brief 3)) { stopped = true };
  verdicts = degrade ∷ [];
}

condemned-Reached : Reached brief condemned
unfolding turn transition can_transition start_watchdog validate watch_dead send_failed stop
condemned-Reached =
    next
      (next
        (next
          (next (next (next start 1 redials tt refl) 2 (dials 1) tt refl) 3 (shakes 1 "ann") tt
            refl)
          33 (silent 1) tt refl)
        33 read_fails tt refl)
      33 over tt refl

patient_never_crashes_example :
    (false ≡ false)
    × (waiting ≡ serving → condemned.watchdog.stopped ≡ false → false ≡ false → online ≡ online)
patient_never_crashes_example = patient_never_crashes brief condemned condemned-Reached

hasty_redial_crashes_example :
    (c' : Client) × (c'' : Client) × (turn brief 34 waits condemned ≡ some c')
    × (turn brief 34 redials c' ≡ some c'')
    × (c''.crashed ≡ true)
hasty_redial_crashes_example =
    hasty_redial_crashes brief 34 34 condemned degrade [] condemned-Reached refl refl refl refl

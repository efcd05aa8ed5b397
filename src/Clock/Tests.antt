-- ===== src/Clock/Tests.antt =====
-- Runs of the fake clock.
use walkie.Prelude.{◌≡◌, refl, none, some, [], ◌∷◌}
use walkie.Clock.Fake.{Fake, TimerState, new_fake, new_timer, stop, advance, deliver, remove_waiter}

abbrev one_timer : Fake
one_timer = record {
  now = 10;
  waiters = record { at = 15; chan = 0 } ∷ [];
  chans = record { buffer = none; timer = some TimerState.pending } ∷ [];
}

makes_one : new_timer 5 (new_fake 10) ≡ (0, one_timer)
unfolding new_timer
makes_one = refl

fires_once :
    advance 5 one_timer
    ≡ some (record {
      now = 15;
      waiters = [];
      chans = record { buffer = some 15; timer = some TimerState.fired } ∷ [];
    })
unfolding advance deliver
fires_once = refl

stopped_in_time : (stop 0 one_timer).1.waiters ≡ []
unfolding stop remove_waiter
stopped_in_time = refl

-- ===== src/Presence/Start.antt =====
-- What a start of the presence tracker leaves (internal/coordinator/presence/tracker.go).
use walkie.Prelude.{
  subst, ℕ, suc, zero, ◌≡◌, refl, sym, ap, String, Bool, true, false, Option, none, some, List, [],
  ◌∷◌, arith, if◌then◌else◌, if-intro, str_eq, lookup, insert, lookup-insert,
}
use walkie.Wire.{Bytes}
use walkie.Presence.Tracker.{Time, Device, Tables, Tracker, or_new}
use walkie.Presence.Status.{
  new_tracker, load_liveness, load_statuses, load_persisted, then_statuses, tracker_of,
}
use walkie.Presence.Live.{LiveAt, IsLive}

or_new-if :
    (b : Bool) (d : Device) (o : Option Device)
    → or_new (if b then some d else o) ≡ (if b then d else or_new o)
or_new-if true d o = refl
or_new-if false d o = refl

-- A device as a start leaves it.
abbrev IsCold : Device → Type 0
IsCold d = (d.online ≡ false) × (d.lease ≡ none) × (d.gen ≡ 0)

abbrev AllCold : List (String × Device) → Type 0
AllCold devices = (a : String) → IsCold (or_new (lookup a devices))

insert-AllCold :
    (b : String) (d : Device) (devices : List (String × Device))
    → IsCold d
    → AllCold devices
    → AllCold (insert b d devices)
insert-AllCold b d devices cold all a =
    subst IsCold (sym (ap or_new (lookup-insert b a d devices))) (
      subst IsCold (sym (or_new-if (str_eq b a) d (lookup a devices)))
        (if-intro IsCold (str_eq b a) d (or_new (lookup a devices)) (λ h. cold) (λ h. all a)))

load_liveness-AllCold :
    (rows : List (String × Option Time)) (devices devices' : List (String × Device))
    → load_liveness rows devices ≡ some devices'
    → AllCold devices
    → AllCold devices'
unfolding load_liveness
load_liveness-AllCold [] devices devices' e all = subst AllCold (ground (arith, e)) all
load_liveness-AllCold ((b, none) ∷ rows) devices devices' e all = absurd (ground (arith, e))
load_liveness-AllCold ((b, some seen) ∷ rows) devices devices' e all =
    load_liveness-AllCold rows _ devices' e (insert-AllCold b _ devices (all b) all)

load_statuses-AllCold :
    (rows : List (String × (Bytes × Option Time))) (devices devices' : List (String × Device))
    → load_statuses rows devices ≡ some devices'
    → AllCold devices
    → AllCold devices'
unfolding load_statuses
load_statuses-AllCold [] devices devices' e all = subst AllCold (ground (arith, e)) all
load_statuses-AllCold ((b, (text, none)) ∷ rows) devices devices' e all = absurd (ground (arith, e))
load_statuses-AllCold ((b, (text, some updated)) ∷ rows) devices devices' e all =
    load_statuses-AllCold rows _ devices' e (insert-AllCold b _ devices (all b) all)

cold-LiveAt : (ttl : ℕ) (a : String) (d : Device) → IsCold d → LiveAt 0 ttl false [] a d
cold-LiveAt ttl a d cold = record {
  counted = omega (arith, cold.2);
  idle = λ off. cold.1;
  leased = λ on. absurd (ground (arith, on, cold));
  past = λ gen deadline known. absurd known;
  current = λ deadline known on. absurd known;
}

then_statuses-AllCold :
    (rows : List (String × (Bytes × Option Time))) (o : Option (List (String × Device)))
    (devices : List (String × Device))
    → ((seen : List (String × Device)) → o ≡ some seen → AllCold seen)
    → then_statuses rows o ≡ some devices
    → AllCold devices
then_statuses-AllCold rows none devices all e = absurd (ground (arith, e))
then_statuses-AllCold rows (some seen) devices all e =
    load_statuses-AllCold rows seen devices e (all seen refl)

load_persisted-AllCold :
    (reads : Bool) (tables : Tables) (devices : List (String × Device))
    → load_persisted reads tables ≡ some devices
    → AllCold devices
unfolding load_persisted lookup
load_persisted-AllCold false tables devices e = absurd (ground (arith, e))
load_persisted-AllCold true tables devices e =
    then_statuses-AllCold tables.statuses (load_liveness tables.liveness []) devices
      (λ seen loaded.
        load_liveness-AllCold tables.liveness [] seen loaded (λ a. (refl, refl, refl)))
      e

tracker_of-IsLive :
    (ttl : ℕ) (tables : Tables) (o : Option (List (String × Device))) (t : Tracker)
    → ((devices : List (String × Device)) → o ≡ some devices → AllCold devices)
    → tracker_of ttl tables o ≡ some t
    → IsLive 0 t
tracker_of-IsLive ttl tables none t all e = absurd (ground (arith, e))
tracker_of-IsLive ttl tables (some devices) t all e =
    let cold_start : Tracker = record {
      ttl = ttl;
      devices = devices;
      subs = [];
      closed = false;
      tables = tables;
      started = [];
    } in
    let whole : cold_start ≡ t = ground (arith, e) in
    subst (IsLive 0) whole (λ a. cold-LiveAt ttl a (or_new (lookup a devices)) (all devices refl a))

pub new_tracker-IsLive :
    (reads : Bool) (ttl : ℕ) (tables : Tables) (t : Tracker)
    → new_tracker reads ttl tables ≡ some t
    → IsLive 0 t
unfolding new_tracker
new_tracker-IsLive reads zero tables t made = absurd (ground (arith, made))
new_tracker-IsLive reads (suc ttl) tables t made =
    tracker_of-IsLive (suc ttl) tables (load_persisted reads tables) t
      (load_persisted-AllCold reads tables) (ground (arith, made))

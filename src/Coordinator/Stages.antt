-- ===== src/Coordinator/Stages.antt =====
-- Counting and finding connections by their stage (internal/coordinator/server.go).
use walkie.Prelude.{
  ℕ, zero, suc, ◌+◌, ◌≤◌, ◌≡◌, refl, String, Bool, true, false, ◌&&◌, Option, none, some, List, [],
  ◌∷◌, ◌++◌, arith, ◌==◌, if◌then◌else◌, str_eq, get_elem?, set,
}
use walkie.Coordinator.Routing.{device_of}
use walkie.Coordinator.Session.{
  Conn, Stage, accepted, established, subscribed, greeted, routed, leaving, unrouted, released,
}

abbrev pub bit : Bool → ℕ
bit true = 1
bit false = 0

abbrev pub count : (Conn → Bool) → List Conn → ℕ
count p [] = 0
count p (c ∷ cs) = bit (p c) + count p cs

module _ (p : Conn → Bool) where
  pub count-set :
      (cs : List Conn) (i : ℕ) (c c' : Conn)
      → get_elem? cs i ≡ some c
      → count p (set cs i c') + bit (p c) ≡ count p cs + bit (p c')
  count-set [] i c c' e = absurd (ground (arith, e))
  count-set (d ∷ cs) zero c c' e = ground (arith, e)
  count-set (d ∷ cs) (suc i) c c' e = omega (arith, count-set cs i c c' e)

  pub count-append : (cs : List Conn) (c : Conn) → count p (cs ++ c ∷ []) ≡ count p cs + bit (p c)
  count-append [] c = omega arith
  count-append (d ∷ cs) c = omega (arith, count-append cs c)

  pub count-there :
      (cs : List Conn) (i : ℕ) (c : Conn) → get_elem? cs i ≡ some c → bit (p c) ≤ count p cs
  count-there [] i c e = absurd (ground (arith, e))
  count-there (d ∷ cs) zero c e = ground (arith, e)
  count-there (d ∷ cs) (suc i) c e = omega (arith, count-there cs i c e)

pub count-le :
    (p q : Conn → Bool) (cs : List Conn)
    → ((c : Conn) → bit (p c) ≤ bit (q c))
    → count p cs ≤ count q cs
count-le p q [] le = omega arith
count-le p q (c ∷ cs) le = omega (arith, le c, count-le p q cs le)

pub get-set :
    (cs : List Conn) (i j : ℕ) (c c' : Conn)
    → get_elem? cs i ≡ some c
    → get_elem? (set cs i c') j ≡ (if i == j then some c' else get_elem? cs j)
get-set [] i j c c' e = absurd (ground (arith, e))
get-set (d ∷ cs) zero zero c c' e = refl
get-set (d ∷ cs) zero (suc j) c c' e = ground arith
get-set (d ∷ cs) (suc i) zero c c' e = ground arith
get-set (d ∷ cs) (suc i) (suc j) c c' e = ground (arith, get-set cs i j c c' e)

-- A stage in which the connection has a route, counts for presence, is in the registry, and has a
-- handler that runs.
abbrev pub in_routes : Stage → Bool
in_routes routed = true
in_routes leaving = true
in_routes _ = false

abbrev pub in_presence : Stage → Bool
in_presence established = true
in_presence subscribed = true
in_presence greeted = true
in_presence routed = true
in_presence leaving = true
in_presence unrouted = true
in_presence _ = false

abbrev pub in_registry : Stage → Bool
in_registry accepted = false
in_registry released = false
in_registry _ = true

abbrev pub runs : Stage → Bool
runs released = false
runs _ = true

abbrev pub of : String → (Stage → Bool) → Conn → Bool
of d test c = test c.stage && str_eq (device_of c.identity) d

abbrev pub staged : (Stage → Bool) → Conn → Bool
staged test c = test c.stage

abbrev pub found : (Conn → Bool) → Option Conn → Bool
found p none = false
found p (some c) = p c

pub found-append :
    (p : Conn → Bool) (cs : List Conn) (c : Conn) (j : ℕ)
    → p c ≡ false
    → found p (get_elem? (cs ++ c ∷ []) j) ≡ found p (get_elem? cs j)
found-append p [] c zero e = e
found-append p [] c (suc j) e = refl
found-append p (d ∷ cs) c zero e = refl
found-append p (d ∷ cs) c (suc j) e = found-append p cs c j e

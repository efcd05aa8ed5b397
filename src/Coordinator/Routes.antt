-- ===== src/Coordinator/Routes.antt =====
-- The routes are a set of connections for each device (internal/coordinator/routing.go).
use walkie.Prelude.{
  ℕ, ◌≡◌, refl, sym, ap, String, true, false, not, ◌||◌, ◌&&◌, Option, none, some, List, [], ◌∷◌,
  arith, ◌==◌, ==→eq, str_eq, eq_iff, length, lookup, lookup-insert, lookup-erase, Bool-cases,
}
use walkie.Coordinator.Routing.{
  Server, members, has, adjoin, without, route_targets, add_route, remove_route, removed,
}

subst_has : (v w : ℕ) (ws : List ℕ) → (w == v) ≡ true → has v ws ≡ has w ws
subst_has v w ws e = ap (λ x. has x ws) (sym (==→eq w v e))

has-adjoin : (v w : ℕ) (ws : List ℕ) → has v (adjoin w ws) ≡ ((w == v) || has v ws)
has-adjoin v w ws = ground (arith, Bool-cases (has w ws), Bool-cases (w == v), subst_has v w ws)

pub has-without : (v w : ℕ) (ws : List ℕ) → has v (without w ws) ≡ (has v ws && not (w == v))
has-without v w [] = refl
has-without v w (x ∷ ws) = ground (arith, has-without v w ws)

emptied : (v : ℕ) (ws : List ℕ) → length ws ≡ 0 → has v ws ≡ false
emptied v [] e = refl
emptied v (w ∷ ws) e = absurd (omega (arith, e))

module _ {S : Type 0} (s : Server S) (device asked : String) (w v : ℕ) where
  -- addRoute makes `w` a connection of its device and leaves every other connection of every device as it was.
  pub targets-add_route :
      has v (route_targets asked (add_route device w s))
      ≡ ((str_eq device asked && (w == v)) || has v (route_targets asked s))
  unfolding route_targets add_route
  targets-add_route =
      let ws = members (lookup device s.routes) in
      ground (
        arith,
        lookup-insert device asked (adjoin w ws) s.routes,
        eq_iff device asked,
        has-adjoin v w ws,
      )

  removed-has :
      (o : Option (List ℕ))
      → lookup device s.routes ≡ o
      → has v (members (lookup asked (removed device w o s).routes))
        ≡ (has v (members (lookup asked s.routes)) && not (str_eq device asked && (w == v)))
  removed-has none e = ground (arith, e, eq_iff device asked)
  removed-has (some ws) e = ground (
    arith,
    e,
    eq_iff device asked,
    lookup-erase device asked s.routes,
    lookup-insert device asked (without w ws) s.routes,
    has-without v w ws,
    emptied v (without w ws),
  )

  -- removeRoute takes `w` from its device and leaves every other connection of every device as it was.
  pub targets-remove_route :
      has v (route_targets asked (remove_route device w s))
      ≡ (has v (route_targets asked s) && not (str_eq device asked && (w == v)))
  unfolding route_targets remove_route
  targets-remove_route = removed-has (lookup device s.routes) refl

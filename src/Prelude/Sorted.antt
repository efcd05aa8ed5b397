-- ===== src/Prelude/Sorted.antt =====
-- Maps from names, listed in the order of their names.
use Prim.Native.String.{String}
use mathlib.Core.Path.{◌≡◌, refl}
use mathlib.Core.Bool.{false}
use mathlib.Core.List.{List, [], ◌∷◌}
use mathlib.Core.Option.{some}
use native.Mathlib.Omega.{arith}
use walkie.Prelude.Tests.{if◌then◌else◌}
use walkie.Prelude.Keys.{str_eq, eq_iff, lookup}
use walkie.Prelude.Order.{before, before_apart, before_asym}

module _ {ℓ} {V : Type ℓ} where
  unfoldable pub place : String → V → List (String × V) → List (String × V)
  place key value [] = (key, value) ∷ []
  place key value ((name, old) ∷ names) =
      let rest = place key value names in
      if before name key then (name, old) ∷ rest else (key, value) ∷ (name, old) ∷ names

  -- sort.Slice by name
  unfoldable pub sort_names : List (String × V) → List (String × V)
  sort_names [] = []
  sort_names ((name, value) ∷ names) = place name value (sort_names names)

  pub lookup-place :
      (key asked : String) (value : V) (names : List (String × V))
      → lookup asked (place key value names)
        ≡ (if str_eq key asked then some value else lookup asked names)
  unfolding lookup place
  lookup-place key asked value [] = refl
  lookup-place key asked value ((name, old) ∷ names) = ground (
    arith,
    lookup-place key asked value names,
    before_apart name key,
    eq_iff name asked,
    eq_iff name key,
    eq_iff key asked,
  )

  -- Sorting loses no entry, and the first of a name still comes first.
  pub lookup-sort_names :
      (asked : String) (names : List (String × V))
      → lookup asked (sort_names names) ≡ lookup asked names
  unfolding lookup sort_names
  lookup-sort_names asked [] = refl
  lookup-sort_names asked ((name, value) ∷ names) =
      ground
        (arith, lookup-place name asked value (sort_names names), lookup-sort_names asked names)

  -- Each name comes after the one before it, or is the same.
  abbrev pub Ordered : List (String × V) → Type 0
  Ordered [] = Unit
  Ordered (n ∷ []) = Unit
  Ordered (n ∷ n' ∷ names) = (before n'.0 n.0 ≡ false) × Ordered (n' ∷ names)

  place-Ordered :
      (key : String) (value : V) (names : List (String × V))
      → Ordered names
      → Ordered (place key value names)
  unfolding place
  place-Ordered key value [] o = tt
  place-Ordered key value (n ∷ []) o = ground (arith, before_asym n.0 key)
  place-Ordered key value (n ∷ n' ∷ names) o =
      ground (arith, o, before_asym n.0 key, place-Ordered key value (n' ∷ names) o.1)

  pub sort_names-Ordered : (names : List (String × V)) → Ordered (sort_names names)
  unfolding sort_names
  sort_names-Ordered [] = tt
  sort_names-Ordered ((name, value) ∷ names) =
      place-Ordered name value (sort_names names) (sort_names-Ordered names)

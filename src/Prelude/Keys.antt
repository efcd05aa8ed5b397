-- ===== src/Prelude/Keys.antt =====
-- Maps from names, as association lists. `str_eq` compares two texts.
use Prim.Native.String.{String}
use mathlib.Core.Path.{◌≡◌, refl}
use mathlib.Core.List.{List, [], ◌∷◌}
use mathlib.Core.Option.{Option, none, some}
use native.Mathlib.Omega.{arith}
use walkie.Prelude.Tests.{if◌then◌else◌}
pub use text.Mathlib.Text.{◌==◌ as str_eq}
pub use text.Mathlib.TextEquality.{eq_iff}
pub use text.Mathlib.TextPositions.{eq_refl}

module _ {ℓ} {V : Type ℓ} where
  -- delete(names, key)
  unfoldable pub erase : String → List (String × V) → List (String × V)
  erase key [] = []
  erase key ((name, value) ∷ names) =
      let rest = erase key names in if str_eq name key then rest else (name, value) ∷ rest

  -- names[key], with its presence
  unfoldable pub lookup : String → List (String × V) → Option V
  lookup key [] = none
  lookup key ((name, value) ∷ names) = if str_eq name key then some value else lookup key names

  -- names[key] = value
  unfoldable pub insert : String → V → List (String × V) → List (String × V)
  insert key value [] = (key, value) ∷ []
  insert key value ((name, old) ∷ names) =
      if str_eq name key then (name, value) ∷ names else (name, old) ∷ insert key value names

  -- names[key] = change(names[key]), where key is present
  unfoldable pub adjust : String → (V → V) → List (String × V) → List (String × V)
  adjust key change [] = []
  adjust key change ((name, value) ∷ names) =
      let rest = adjust key change names in
      if str_eq name key then (name, change value) ∷ rest else (name, value) ∷ rest

  abbrev pub map_value : (V → V) → Option V → Option V
  map_value change none = none
  map_value change (some value) = some (change value)

  pub lookup-erase :
      (key asked : String) (names : List (String × V))
      → lookup asked (erase key names) ≡ (if str_eq key asked then none else lookup asked names)
  unfolding lookup erase
  lookup-erase key asked [] = ground arith
  lookup-erase key asked ((name, value) ∷ names) =
      ground
        (arith, eq_iff key asked, eq_iff name asked, eq_iff name key, lookup-erase key asked names)

  pub lookup-insert :
      (key asked : String) (value : V) (names : List (String × V))
      → lookup asked (insert key value names)
        ≡ (if str_eq key asked then some value else lookup asked names)
  unfolding lookup insert
  lookup-insert key asked value [] = refl
  lookup-insert key asked value ((name, old) ∷ names) =
      let rest = lookup-insert key asked value names in
      ground (arith, rest, eq_iff name asked, eq_iff name key, eq_iff key asked)

  pub lookup-adjust :
      (key asked : String) (change : V → V) (names : List (String × V))
      → lookup asked (adjust key change names)
        ≡ (if str_eq key asked then map_value change (lookup asked names) else lookup asked names)
  unfolding lookup adjust
  lookup-adjust key asked change [] = ground arith
  lookup-adjust key asked change ((name, value) ∷ names) =
      let rest = lookup-adjust key asked change names in
      ground (arith, rest, eq_iff name asked, eq_iff name key, eq_iff key asked)

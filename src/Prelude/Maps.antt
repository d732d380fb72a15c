-- ===== src/Prelude/Maps.antt =====
-- Go's maps with string keys, as association lists. Iteration order is that of the list.
use Prim.Native.String.{String}
use mathlib.Core.Path.{◌≡◌}
use mathlib.Core.Option.{Option, none, some}
use mathlib.Core.List.{List, [], ◌∷◌}
use native.Mathlib.Omega.{arith}
use text.Mathlib.Text.{◌==◌}
use text.Mathlib.TextEquality.{eq_iff}
use artifact_controller.Prelude.Tests.{if◌then◌else◌}

-- map[string]V
abbrev pub Map {ℓ} : Type ℓ → Type ℓ
Map V = List (String × V)

module _ {ℓ} {V : Type ℓ} where
  -- value, ok := entries[name]
  unfoldable pub lookup : String → Map V → Option V
  lookup name [] = none
  lookup name (e ∷ rest) = if e.0 == name then some e.1 else lookup name rest

  -- entries[name] = value
  unfoldable pub insert : String → V → Map V → Map V
  insert name value [] = (name, value) ∷ []
  insert name value (e ∷ rest) =
      if e.0 == name then (name, value) ∷ rest else e ∷ insert name value rest

  -- delete(entries, name): every entry under the name goes.
  unfoldable pub erase : String → Map V → Map V
  erase name [] = []
  erase name (e ∷ rest) = let kept = erase name rest in if e.0 == name then kept else e ∷ kept

  -- The value under `other` after a change of the entry under `name`.
  module _ (name other : String) where
    pub lookup-insert :
        (value : V) (entries : Map V)
        → lookup other (insert name value entries)
          ≡ (if name == other then some value else lookup other entries)
    unfolding insert lookup
    lookup-insert value [] = ground arith
    lookup-insert value (e ∷ rest) =
        ground
          (arith, lookup-insert value rest, eq_iff name other, eq_iff e.0 name, eq_iff e.0 other)

    pub lookup-erase :
        (entries : Map V)
        → lookup other (erase name entries) ≡ (if name == other then none else lookup other entries)
    unfolding erase lookup
    lookup-erase [] = ground arith
    lookup-erase (e ∷ rest) =
        ground (arith, lookup-erase rest, eq_iff name other, eq_iff e.0 name, eq_iff e.0 other)

-- entries[name] of a map to strings: the empty string where the name is missing.
unfoldable pub get_text : String → Map String → String
unfolding lookup
get_text name entries = elim (lookup name entries) [ none ↦ "" | some value ↦ value ]

-- ===== src/Prelude/Maps.antt =====
-- Go's `map[string]V`: an association list behind its laws, and `none` for the nil map where the
-- code tells nil from empty.
use text.Mathlib.TextPositions.{eq_refl}
use mathlib.Core.Path.{◌≡◌, refl}
use mathlib.Core.Logic.{◌≢◌}
use mathlib.Core.Option.{Option, none, some}
use mathlib.Core.List.{List, [], ◌∷◌}
use native.Mathlib.Omega.{arith}
use Prim.Native.String.{String}
use text.Mathlib.TextEquality.{eq_iff}
use rhbk_operator.Prelude.Tests.{◌==◌, if◌then◌else◌}

abbrev pub Map {ℓ} : Type ℓ → Type ℓ
Map V = List (String × V)

module _ {ℓ} {V : Type ℓ} where
  -- `value, ok := m[key]`
  unfoldable pub lookup : String → Map V → Option V
  lookup key [] = none
  lookup key ((own, value) ∷ rest) = if own == key then some value else lookup key rest

  -- `m[key] = value`
  unfoldable pub insert : String → V → Map V → Map V
  insert key value [] = (key, value) ∷ []
  insert key value ((own, old) ∷ rest) =
      if own == key then (own, value) ∷ rest else (own, old) ∷ insert key value rest

  -- A key that is read after a write finds what was written, and every other key what it had.
  pub lookup-insert :
      (written read : String) (value : V) (m : Map V)
      → lookup read (insert written value m)
        ≡ (if written == read then some value else lookup read m)
  unfolding lookup insert
  lookup-insert written read value [] = refl
  lookup-insert written read value ((own, old) ∷ rest) =
      let later = lookup-insert written read value rest in
      ground (arith, later, eq_iff own written, eq_iff written read, eq_iff own read)

  pub lookup-insert_self :
      (key : String) (value : V) (m : Map V) → lookup key (insert key value m) ≡ some value
  lookup-insert_self key value m = simp (lookup-insert, eq_refl)

  pub lookup-insert_ne :
      (written read : String) (value : V) (m : Map V)
      → written ≢ read
      → lookup read (insert written value m) ≡ lookup read m
  lookup-insert_ne written read value m different =
      ground (arith, lookup-insert written read value m, eq_iff written read)

-- Reading a key of a possibly nil map of strings: Go gives "" where the key is missing.
unfoldable pub get_string : String → Option (Map String) → String
get_string k none = ""
get_string k (some m) = elim (lookup k m) [ none ↦ "" | some v ↦ v ]

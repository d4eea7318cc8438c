-- ===== src/Prelude/Maps.antt =====
-- Go maps with text keys, as association lists. A nil map reads as an empty one.
use Prim.Native.String.{String}
use text.Mathlib.Text.{◌==◌}
use text.Mathlib.TextEquality.{eq_iff}
use mathlib.Core.Path.{◌≡◌, refl}
use mathlib.Core.List.{List, [], ◌∷◌}
use mathlib.Core.Option.{Option, none, some}
use native.Mathlib.Omega.{arith}
use proctssor.Prelude.Tests.{if◌then◌else◌}

abbrev pub Map {ℓ} : Type ℓ → Type ℓ
Map V = List (String × V)

module _ {ℓ} {V : Type ℓ} where
  unfoldable pub lookup : (key : String) → Map V → Option V
  lookup key [] = none
  lookup key (entry ∷ rest) = if entry.0 == key then some entry.1 else lookup key rest

  -- `m[key] = value`, in the place of the key where the map has it.
  unfoldable pub insert : (key : String) → V → Map V → Map V
  insert key value [] = (key, value) ∷ []
  insert key value (entry ∷ rest) =
      let later = insert key value rest in
      if entry.0 == key then (key, value) ∷ rest else entry ∷ later

  -- `delete(m, key)`.
  unfoldable pub erase : (key : String) → Map V → Map V
  erase key [] = []
  erase key (entry ∷ rest) =
      let later = erase key rest in if entry.0 == key then later else entry ∷ later

  -- `for k, v := range new { m[k] = v }`. The keys of a Go map differ, so no order shows.
  unfoldable pub merge : Map V → Map V → Map V
  unfolding insert
  merge m [] = m
  merge m ((k, v) ∷ new) = insert k v (merge m new)

  pub lookup-insert :
      (k j : String) (v : V) (m : Map V)
      → lookup j (insert k v m) ≡ (if k == j then some v else lookup j m)
  unfolding lookup insert
  lookup-insert k j v [] = refl
  lookup-insert k j v (entry ∷ m) =
      ground (arith, lookup-insert k j v m, eq_iff entry.0 j, eq_iff k j, eq_iff entry.0 k)

  pub lookup-erase :
      (k j : String) (m : Map V) → lookup j (erase k m) ≡ (if k == j then none else lookup j m)
  unfolding lookup erase
  lookup-erase k j [] = ground arith
  lookup-erase k j (entry ∷ m) =
      ground (arith, lookup-erase k j m, eq_iff entry.0 j, eq_iff k j, eq_iff entry.0 k)

  abbrev pub or_else : Option V → Option V → Option V
  or_else none d = d
  or_else (some v) d = some v

  pub lookup-merge :
      (j : String) (m new : Map V) → lookup j (merge m new) ≡ or_else (lookup j new) (lookup j m)
  unfolding lookup merge
  lookup-merge j m [] = refl
  lookup-merge j m ((k, v) ∷ new) =
      ground (arith, lookup-insert k j v (merge m new), lookup-merge j m new)

-- ===== src/Registry/Cache/Table.antt =====
-- The size of the table under insertion and removal: a Go map has each key once.
use proctssor.Prelude.{
  ◌+◌, String, ◌==◌, eq_iff, ◌≡◌, refl, ◌∙◌, [], ◌∷◌, Map, lookup, insert, erase, lookup-insert,
  lookup-erase, none, is_some, if◌then◌else◌, length, arith, Bool-cases, inl, inr,
}

module _ {V : Type 0} where
  abbrev pub IsKeyed : Map V → Type 0
  IsKeyed [] = Unit
  IsKeyed ((k, v) ∷ m) = (lookup k m ≡ none) × IsKeyed m

  pub length-insert :
      (key : String) (v : V) (m : Map V)
      → length (insert key v m) ≡ length m + (if is_some (lookup key m) then 0 else 1)
  unfolding lookup insert
  length-insert key v [] = refl
  length-insert key v ((k, w) ∷ m) = ground (arith, length-insert key v m)

  pub insert-IsKeyed : (key : String) (v : V) (m : Map V) → IsKeyed m → IsKeyed (insert key v m)
  unfolding lookup insert
  insert-IsKeyed key v [] h = (refl, tt)
  insert-IsKeyed key v ((k, w) ∷ m) h = elim (Bool-cases (k == key)) [
    | inl same ↦ rw same ((rw ((eq_iff k key).0 same) at h.0), h.1)
    | inr other ↦ rw other (
      lookup-insert key k v m ∙ ground (arith, h.0, other, eq_iff k key, eq_iff key k),
      insert-IsKeyed key v m h.1,
    )
  ]

  erase-absent : (key : String) (m : Map V) → lookup key m ≡ none → erase key m ≡ m
  unfolding lookup erase
  erase-absent key [] h = refl
  erase-absent key ((k, w) ∷ m) h = ground (arith, h, erase-absent key m)

  pub length-erase :
      (key : String) (m : Map V)
      → IsKeyed m
      → length m ≡ length (erase key m) + (if is_some (lookup key m) then 1 else 0)
  unfolding lookup erase
  length-erase key [] h = refl
  length-erase key ((k, w) ∷ m) h =
      ground (arith, h, erase-absent key m, eq_iff k key, length-erase key m h.1)

  pub erase-IsKeyed : (key : String) (m : Map V) → IsKeyed m → IsKeyed (erase key m)
  unfolding lookup erase
  erase-IsKeyed key [] h = tt
  erase-IsKeyed key ((k, w) ∷ m) h = elim (Bool-cases (k == key)) [
    | inl same ↦ rw same (erase-IsKeyed key m h.1)
    | inr other ↦ rw other (
      lookup-erase key k m ∙ ground (arith, h.0, other, eq_iff k key, eq_iff key k),
      erase-IsKeyed key m h.1,
    )
  ]

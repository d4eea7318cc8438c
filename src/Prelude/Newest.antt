-- ===== src/Prelude/Newest.antt =====
-- Rows in descending order of a time, as `ORDER BY … DESC` gives them; rows of one time keep the
-- table's order. The first rows of a list, as `LIMIT` gives them, are by `take`.
use Prim.Native.Nat.{ℕ, zero, suc, ◌≤◌}
use mathlib.Core.Path.{◌≡◌}
use mathlib.Core.Bool.{Bool, true}
use mathlib.Core.Logic.{inl, inr}
use mathlib.Core.List.{List, [], ◌∷◌}
use native.Mathlib.Omega.{arith}
use proctssor.Prelude.Tests.{if◌then◌else◌, leb, Bool-cases}
use proctssor.Prelude.Lists.{length, take, select, All}

module _ {ℓ} {A : Type ℓ} where
  pub take-All {κ} : (P : A → Type κ) (n : ℕ) (rows : List A) → All P rows → All P (take n rows)
  take-All P zero rows h = tt
  take-All P (suc n) [] h = tt
  take-All P (suc n) (row ∷ rows) h = (h.0, take-All P n rows h.1)

  pub length-take : (n : ℕ) (rows : List A) → length (take n rows) ≤ n
  length-take zero rows = omega arith
  length-take (suc n) [] = omega arith
  length-take (suc n) (row ∷ rows) = omega (arith, length-take n rows)

  pub select-All {κ} :
      (P : A → Type κ) (p : A → Bool) (rows : List A) → All P rows → All P (select p rows)
  select-All P p [] h = tt
  select-All P p (row ∷ rows) h = elim (Bool-cases (p row)) [
    | inl kept ↦ rw (kept) (h.0, select-All P p rows h.1)
    | inr left ↦ rw (left) (select-All P p rows h.1)
  ]

  pub select_passes : (p : A → Bool) (rows : List A) → All (λ r. p r ≡ true) (select p rows)
  select_passes p [] = tt
  select_passes p (row ∷ rows) = elim (Bool-cases (p row)) [
    | inl kept ↦ rw (kept) (kept, select_passes p rows)
    | inr left ↦ rw (left) (select_passes p rows)
  ]

module _ {ℓ} {A : Type ℓ} (time : A → ℕ) where
  unfoldable pub insert_newest : A → List A → List A
  insert_newest row [] = row ∷ []
  insert_newest row (first ∷ rows) =
      let rest = insert_newest row rows in
      if leb (time first) (time row) then row ∷ first ∷ rows else first ∷ rest

  unfoldable pub newest_first : List A → List A
  newest_first [] = []
  newest_first (row ∷ rows) = insert_newest row (newest_first rows)

  -- No row is later than the one before.
  abbrev pub IsDescending : List A → Type 0
  IsDescending [] = Unit
  IsDescending (row ∷ rows) = All (λ r. time r ≤ time row) rows × IsDescending rows

  insert_newest-All {κ} :
      (P : A → Type κ) (row : A) (rows : List A)
      → P row
      → All P rows
      → All P (insert_newest row rows)
  unfolding insert_newest
  insert_newest-All P row [] h hs = (h, hs)
  insert_newest-All P row (first ∷ rows) h hs = elim (Bool-cases (leb (time first) (time row))) [
    | inl before ↦ rw (before) (h, hs)
    | inr after ↦ rw (after) (hs.0, insert_newest-All P row rows h hs.1)
  ]

  pub newest_first-All {κ} :
      (P : A → Type κ) (rows : List A) → All P rows → All P (newest_first rows)
  unfolding newest_first
  newest_first-All P [] h = h
  newest_first-All P (row ∷ rows) h = insert_newest-All P row _ h.0 (newest_first-All P rows h.1)

  All-le :
      (t u : ℕ) (rows : List A) → t ≤ u → All (λ r. time r ≤ t) rows → All (λ r. time r ≤ u) rows
  All-le t u [] h hs = hs
  All-le t u (row ∷ rows) h hs = (omega (arith, h, hs.0), All-le t u rows h hs.1)

  insert_newest-IsDescending :
      (row : A) (rows : List A) → IsDescending rows → IsDescending (insert_newest row rows)
  unfolding insert_newest
  insert_newest-IsDescending row [] h = (tt, tt)
  insert_newest-IsDescending row (first ∷ rows) h =
      elim (Bool-cases (leb (time first) (time row))) [
        | inl before ↦
            let earlier : time first ≤ time row = ground (arith, before) in
            rw (before) ((earlier, All-le (time first) (time row) rows earlier h.0), h)
        | inr after ↦ rw (after) (
          insert_newest-All (λ r. time r ≤ time first) row rows (ground (arith, after)) h.0,
          insert_newest-IsDescending row rows h.1,
        )
      ]

  pub newest_first-IsDescending : (rows : List A) → IsDescending (newest_first rows)
  unfolding newest_first
  newest_first-IsDescending [] = tt
  newest_first-IsDescending (row ∷ rows) =
      insert_newest-IsDescending row _ (newest_first-IsDescending rows)

  pub take-IsDescending : (n : ℕ) (rows : List A) → IsDescending rows → IsDescending (take n rows)
  take-IsDescending zero rows h = tt
  take-IsDescending (suc n) [] h = tt
  take-IsDescending (suc n) (row ∷ rows) h =
      (take-All (λ r. time r ≤ time row) n rows h.0, take-IsDescending n rows h.1)

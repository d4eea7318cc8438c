-- ===== src/Registry/Cache/Order.antt =====
-- The key list of the cache: no key stands in it twice.
use proctssor.Prelude.{
  ◌+◌, ◌≤◌, String, ◌==◌, eq_iff, ◌≡◌, ◌≢◌, refl, ◌∙◌, Bool, true, false, not, ◌&&◌, ◌||◌, List, [],
  ◌∷◌, if◌then◌else◌, length, arith, Bool-cases, inl, inr,
}
use proctssor.Registry.Cache.{remove, back}

unfoldable pub has : String → List String → Bool
has key [] = false
has key (k ∷ keys) = k == key || has key keys

-- No key twice.
abbrev pub IsDistinct : List String → Type 0
IsDistinct [] = Unit
IsDistinct (k ∷ keys) = (has k keys ≡ false) × IsDistinct keys

pub has-remove :
    (key j : String) (keys : List String)
    → IsDistinct keys
    → has j (remove key keys) ≡ (not (key == j) && has j keys)
unfolding has remove
has-remove key j [] h = ground arith
has-remove key j (k ∷ keys) h =
    ground (arith, h, has-remove key j keys h.1, eq_iff key j, eq_iff k key, eq_iff k j)

pub remove-IsDistinct :
    (key : String) (keys : List String) → IsDistinct keys → IsDistinct (remove key keys)
unfolding has remove
remove-IsDistinct key [] h = tt
remove-IsDistinct key (k ∷ keys) h = elim (Bool-cases (k == key)) [
  | inl same ↦ rw same h.1
  | inr other ↦
      rw other (has-remove key k keys h.1 ∙ ground (arith, h.0), remove-IsDistinct key keys h.1)
]

pub length-remove :
    (key : String) (keys : List String)
    → length keys ≡ length (remove key keys) + (if has key keys then 1 else 0)
unfolding has remove
length-remove key [] = refl
length-remove key (k ∷ keys) = ground (arith, length-remove key keys)

-- The last key is in the list, unless it is the empty text.
pub has-back : (keys : List String) → back keys ≢ "" → has (back keys) keys ≡ true
unfolding has back
has-back [] h = absurd (h refl)
has-back (k ∷ []) h = ground (arith, eq_iff k k)
has-back (k ∷ j ∷ keys) h = ground (arith, has-back (j ∷ keys) h)

-- Where the list is not empty and none of its keys is, neither is the last.
pub back-named : (keys : List String) → has "" keys ≡ false → 1 ≤ length keys → back keys ≢ ""
unfolding has back
back-named [] h some_key = absurd (omega arith)
back-named (k ∷ []) h some_key = ground (arith, h, eq_iff k "")
back-named (k ∷ j ∷ keys) h some_key = back-named (j ∷ keys) (ground (arith, h)) (omega arith)

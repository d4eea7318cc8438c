-- ===== src/Websocket/Sets.antt =====
-- Sets of client pointers (`map[*Client]bool`), as lists without repetition.
use Prim.Native.Nat.{compare, Ordering}
use proctssor.Prelude.{
  ℕ, ◌≡◌, refl, Bool, true, false, ◌||◌, List, [], ◌∷◌, ◌++◌, if◌then◌else◌, arith,
}

abbrev pub eqb : ℕ → ℕ → Bool
eqb a b = elim (compare a b) [ Ordering.eq ↦ true | _ ↦ false ]

abbrev pub member : ℕ → List ℕ → Bool
member id [] = false
member id (j ∷ ids) = eqb j id || member id ids

unfoldable pub add : ℕ → List ℕ → List ℕ
add id ids = if member id ids then ids else ids ++ id ∷ []

unfoldable pub remove : ℕ → List ℕ → List ℕ
remove id [] = []
remove id (j ∷ ids) = let rest = remove id ids in if eqb j id then rest else j ∷ rest

-- By recursion, so that it computes to tuples.
abbrev pub IsDistinct : List ℕ → Type 0
IsDistinct [] = Unit
IsDistinct (id ∷ ids) = (member id ids ≡ false) × IsDistinct ids

member-append : (j id : ℕ) (ids : List ℕ) → member j (ids ++ id ∷ []) ≡ (member j ids || eqb id j)
member-append j id [] = ground arith
member-append j id (i ∷ ids) = ground (arith, member-append j id ids)

pub member-add :
    (j id : ℕ) (ids : List ℕ) → member j (add id ids) ≡ (if eqb id j then true else member j ids)
unfolding add
member-add j id ids = ground (arith, member-append j id ids)

pub member-remove :
    (j id : ℕ) (ids : List ℕ)
    → member j (remove id ids) ≡ (if eqb id j then false else member j ids)
unfolding remove
member-remove j id [] = ground arith
member-remove j id (i ∷ ids) = ground (arith, member-remove j id ids)

append-IsDistinct :
    (id : ℕ) (ids : List ℕ) → member id ids ≡ false → IsDistinct ids → IsDistinct (ids ++ id ∷ [])
append-IsDistinct id [] h d = (refl, tt)
append-IsDistinct id (i ∷ ids) h d = (
  ground (arith, h, d.0, member-append i id ids),
  append-IsDistinct id ids (ground (arith, h)) d.1,
)

pub add-IsDistinct : (id : ℕ) (ids : List ℕ) → IsDistinct ids → IsDistinct (add id ids)
unfolding add
add-IsDistinct id ids d = ground (arith, append-IsDistinct id ids)

pub remove-IsDistinct : (id : ℕ) (ids : List ℕ) → IsDistinct ids → IsDistinct (remove id ids)
unfolding remove
remove-IsDistinct id [] d = tt
remove-IsDistinct id (i ∷ ids) d =
    ground (arith, d.0, remove-IsDistinct id ids d.1, member-remove i id ids)

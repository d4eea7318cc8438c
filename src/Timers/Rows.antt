-- ===== src/Timers/Rows.antt =====
-- The rows of the table of timers, as the statements see them:
-- engine/internal/integration/nats/timer.go.
use proctssor.Prelude.{
  String, ◌==◌, eq_iff, ◌≡◌, refl, Bool, false, [], ◌∷◌, ◌++◌, none, some, if◌then◌else◌, is_some,
  exists, All, arith, subst, ◌||◌, ◌∙◌, select, take, ℕ, zero, suc, Bool-cases, inl, inr,
}
use proctssor.Timers.{TimerJob, Table, update_row, find_row, insert_by_due, order_by_due}

-- An UPDATE of one row keeps the keys.
pub find_row-update_row :
    (id j : String) (f : TimerJob → TimerJob) (t : Table)
    → ((job : TimerJob) → (f job).id ≡ job.id)
    → find_row j (update_row id f t) ≡ (
        if id == j
        then elim (find_row j t) [ none ↦ none | some job ↦ some (f job) ]
        else find_row j t)
unfolding find_row update_row
find_row-update_row id j f [] same = ground arith
find_row-update_row id j f (job ∷ t) same = ground (
  arith,
  same job,
  find_row-update_row id j f t same,
  eq_iff job.id id,
  eq_iff job.id j,
  eq_iff id j,
)

-- Two UPDATEs of one row are one.
pub update_row-update_row :
    (id : String) (f g : TimerJob → TimerJob) (t : Table)
    → ((job : TimerJob) → (f job).id ≡ job.id)
    → update_row id g (update_row id f t) ≡ update_row id (λ job. g (f job)) t
unfolding update_row
update_row-update_row id f g [] same = refl
update_row-update_row id f g (job ∷ t) same =
    ground (arith, same job, update_row-update_row id f g t same)

pub update_row-All {κ} :
    (P : TimerJob → Type κ) (id : String) (f : TimerJob → TimerJob) (t : Table)
    → ((job : TimerJob) → P job → P (f job))
    → All P t
    → All P (update_row id f t)
unfolding update_row
update_row-All P id f [] keep h = tt
update_row-All P id f (job ∷ t) keep h =
    (ground (arith, h.0, keep job h.0), update_row-All P id f t keep h.1)

-- Each key once.
abbrev pub IsKeyed : Table → Type 0
IsKeyed [] = Unit
IsKeyed (job ∷ t) = (is_some (find_row job.id t) ≡ false) × IsKeyed t

abbrev pub has_row : String → Table → Bool
has_row id t = is_some (find_row id t)

pub has_row-update_row :
    (id j : String) (f : TimerJob → TimerJob) (t : Table)
    → ((job : TimerJob) → (f job).id ≡ job.id)
    → has_row j (update_row id f t) ≡ has_row j t
has_row-update_row id j f t same = ground (arith, find_row-update_row id j f t same)

pub update_row-IsKeyed :
    (id : String) (f : TimerJob → TimerJob) (t : Table)
    → ((job : TimerJob) → (f job).id ≡ job.id)
    → IsKeyed t
    → IsKeyed (update_row id f t)
unfolding update_row
update_row-IsKeyed id f [] same k = tt
update_row-IsKeyed id f (job ∷ t) same k = (
  ground (arith, k.0, same job, has_row-update_row id job.id f t same),
  update_row-IsKeyed id f t same k.1,
)

update_row-absent :
    (id : String) (f : TimerJob → TimerJob) (t : Table)
    → has_row id t ≡ false
    → update_row id f t ≡ t
unfolding update_row find_row
update_row-absent id f [] h = refl
update_row-absent id f (job ∷ t) h = ground (arith, h, update_row-absent id f t)

-- An UPDATE of the one row with its key.
pub update_row-All_at {κ} :
    (P : TimerJob → Type κ) (id : String) (f : TimerJob → TimerJob) (t : Table) (row : TimerJob)
    → IsKeyed t
    → find_row id t ≡ some row
    → P (f row)
    → All P t
    → All P (update_row id f t)
unfolding update_row find_row
update_row-All_at P id f [] row k found p h = tt
update_row-All_at P id f (job ∷ t) row k found p h = elim (Bool-cases (job.id == id)) [
  | inl here ↦
      let at_head : job ≡ row = ground (arith, found, here) in
      let rest : update_row id f t ≡ t =
        update_row-absent id f t (ground (arith, k.0, here, eq_iff job.id id)) in
      rw (here, rest, at_head) (p, h.1)
  | inr other ↦
      rw other (h.0, update_row-All_at P id f t row k.1 (ground (arith, found, other)) p h.1)
]

abbrev pub IsRowOf : Table → TimerJob → Type 0
IsRowOf t job = find_row job.id t ≡ some job

IsRowOf-cons :
    (job : TimerJob) (t u : Table)
    → has_row job.id t ≡ false
    → All (IsRowOf t) u
    → All (IsRowOf (job ∷ t)) u
unfolding find_row
IsRowOf-cons job t [] out h = tt
IsRowOf-cons job t (r ∷ u) out h =
    (ground (arith, out, h.0, eq_iff job.id r.id), IsRowOf-cons job t u out h.1)

pub find_row_self : (t : Table) → IsKeyed t → All (IsRowOf t) t
unfolding find_row
find_row_self [] k = tt
find_row_self (job ∷ t) k =
    (ground (arith, eq_iff job.id job.id), IsRowOf-cons job t t k.0 (find_row_self t k.1))

-- The queries keep the keys apart.
has_row-select :
    (j : String) (p : TimerJob → Bool) (t : Table)
    → has_row j t ≡ false
    → has_row j (select p t) ≡ false
unfolding find_row
has_row-select j p [] h = refl
has_row-select j p (job ∷ t) h = ground (arith, h, has_row-select j p t)

pub select-IsKeyed : (p : TimerJob → Bool) (t : Table) → IsKeyed t → IsKeyed (select p t)
select-IsKeyed p [] k = tt
select-IsKeyed p (job ∷ t) k =
    ground (arith, k.0, has_row-select job.id p t, select-IsKeyed p t k.1)

has_row-take : (j : String) (n : ℕ) (t : Table) → has_row j t ≡ false → has_row j (take n t) ≡ false
unfolding find_row
has_row-take j zero t h = refl
has_row-take j (suc n) [] h = refl
has_row-take j (suc n) (job ∷ t) h = ground (arith, h, has_row-take j n t)

pub take-IsKeyed : (n : ℕ) (t : Table) → IsKeyed t → IsKeyed (take n t)
take-IsKeyed zero t k = tt
take-IsKeyed (suc n) [] k = tt
take-IsKeyed (suc n) (job ∷ t) k = (has_row-take job.id n t k.0, take-IsKeyed n t k.1)

has_row-insert :
    (j : String) (job : TimerJob) (t : Table)
    → has_row j (insert_by_due job t) ≡ (job.id == j || has_row j t)
unfolding insert_by_due find_row
has_row-insert j job [] = ground arith
has_row-insert j job (r ∷ t) = ground (arith, has_row-insert j job t)

insert-IsKeyed :
    (job : TimerJob) (t : Table)
    → has_row job.id t ≡ false
    → IsKeyed t
    → IsKeyed (insert_by_due job t)
unfolding insert_by_due find_row
insert-IsKeyed job [] h k = (refl, tt)
insert-IsKeyed job (r ∷ t) h k = ground (
  arith,
  h,
  k.0,
  has_row-insert r.id job t,
  insert-IsKeyed job t,
  eq_iff job.id r.id,
  eq_iff r.id job.id,
)

has_row-order : (j : String) (t : Table) → has_row j (order_by_due t) ≡ has_row j t
unfolding order_by_due find_row
has_row-order j [] = refl
has_row-order j (job ∷ t) = ground (arith, has_row-insert j job (order_by_due t), has_row-order j t)

pub order-IsKeyed : (t : Table) → IsKeyed t → IsKeyed (order_by_due t)
unfolding order_by_due
order-IsKeyed [] k = tt
order-IsKeyed (job ∷ t) k =
    insert-IsKeyed job (order_by_due t) (has_row-order job.id t ∙ k.0) (order-IsKeyed t k.1)

has_row-append :
    (j : String) (job : TimerJob) (t : Table)
    → has_row j (t ++ job ∷ []) ≡ (has_row j t || job.id == j)
unfolding find_row
has_row-append j job [] = ground arith
has_row-append j job (r ∷ t) = ground (arith, has_row-append j job t)

pub append-IsKeyed :
    (job : TimerJob) (t : Table)
    → exists (λ (r : TimerJob). r.id == job.id) t ≡ false
    → IsKeyed t
    → IsKeyed (t ++ job ∷ [])
unfolding find_row
append-IsKeyed job [] h k = (refl, tt)
append-IsKeyed job (r ∷ t) h k = (
  ground (arith, h, k.0, has_row-append r.id job t, eq_iff job.id r.id, eq_iff r.id job.id),
  append-IsKeyed job t (ground (arith, h)) k.1,
)

pub find_row-All {κ} :
    (P : TimerJob → Type κ) (id : String) (t : Table) (row : TimerJob)
    → All P t
    → find_row id t ≡ some row
    → P row
unfolding find_row
find_row-All P id [] row h found = cc
find_row-All P id (job ∷ t) row h found = elim (Bool-cases (job.id == id)) [
  | inl here ↦ let at_head : job ≡ row = ground (arith, found, here) in subst P at_head h.0
  | inr other ↦ find_row-All P id t row h.1 (ground (arith, found, other))
]

-- ===== src/Saga/Model/Completed.antt =====
-- The selections of a saga's steps: engine/internal/core/saga/model.go.
use mathlib.Core.List.{reverse-append, reverse-reverse}
use proctssor.Prelude.{
  ℕ, zero, suc, ◌==◌, ◌≡◌, ◌≢◌, refl, sym, ◌∙◌, ap, true, false, not, ◌&&◌, List, [], ◌∷◌, ◌++◌,
  reverse, Option, none, some, select, select-append, exists, take, take-length, take-suc,
  get_elem?, length, is_empty, arith, Option-cases, inl, inr, Bool-cases,
}
use proctssor.Saga.Model.{
  SagaStep, Saga, is_completed, completed_below, get_completed_steps, has_compensation,
}

-- The element at an index, if there is one.
abbrev only : Option SagaStep → List SagaStep
only o = elim o [ none ↦ [] | some step ↦ step ∷ [] ]

completed_below-suc :
    (steps : List SagaStep) (i : ℕ)
    → completed_below steps (suc i)
      ≡ reverse (select is_completed (only (get_elem? steps i))) ++ completed_below steps i
unfolding completed_below
completed_below-suc steps i = elim (Option-cases (get_elem? steps i)) [
  | inl gone ↦ rw (gone, completed_below) refl
  | inr (step, here) ↦ elim (Bool-cases (is_completed step)) [
    | inl done ↦ rw (here, completed_below, done) refl
    | inr other ↦ rw (here, completed_below, other) refl
  ]
]

completed_below_lem :
    (steps : List SagaStep) (n : ℕ)
    → completed_below steps n ≡ reverse (select is_completed (take n steps))
unfolding completed_below
completed_below_lem steps zero = refl
completed_below_lem steps (suc i) =
    let before = take i steps in
    let last = only (get_elem? steps i) in
    completed_below-suc steps i
    ∙ ap (λ l. reverse (select is_completed last) ++ l) (completed_below_lem steps i)
    ∙ sym (reverse-append (select is_completed before) (select is_completed last))
    ∙ ap reverse (sym (select-append is_completed before last))
    ∙ ap (λ l. reverse (select is_completed l)) (sym (take-suc steps i))

-- `GetCompletedSteps` gives exactly the completed steps, the last one first.
pub get_completed_steps_lem :
    (s : Saga) → get_completed_steps s ≡ reverse (select is_completed s.steps)
unfolding get_completed_steps
get_completed_steps_lem s =
    completed_below_lem s.steps (length s.steps)
    ∙ ap (λ l. reverse (select is_completed l)) (take-length s.steps)

exists-select :
    (steps : List SagaStep)
    → exists (λ step. not (step.compensate_node_id == "") && is_completed step) steps ≡ true
    → select is_completed steps ≢ []
exists-select [] h e = cc
exists-select (step ∷ steps) h e = ground (arith, exists-select steps)

reverse_not_nil : (l : List SagaStep) → l ≢ [] → reverse l ≢ []
reverse_not_nil l h e = h (sym (reverse-reverse l) ∙ ap reverse e)

-- A saga that has compensation has completed steps: the steps that `HasCompensation` looks for
-- are among those that `GetCompletedSteps` gives.
pub has_compensation-completed : (s : Saga) → has_compensation s ≡ true → get_completed_steps s ≢ []
unfolding has_compensation
has_compensation-completed s h =
    rw (get_completed_steps_lem s) (reverse_not_nil _ (exists-select s.steps h))

is_empty-select :
    (steps : List SagaStep) → is_empty (select is_completed steps) ≡ not (exists is_completed steps)
is_empty-select [] = refl
is_empty-select (step ∷ steps) = ground (arith, is_empty-select steps)

is_empty-reverse : (l : List SagaStep) → is_empty (reverse l) ≡ is_empty l
is_empty-reverse [] = refl
is_empty-reverse (x ∷ l) = rw (reverse-append (x ∷ []) l) (is_empty-append (reverse l) x)
  where
    is_empty-append : (l : List SagaStep) (x : SagaStep) → is_empty (l ++ x ∷ []) ≡ false
    is_empty-append [] x = refl
    is_empty-append (y ∷ l) x = refl

pub is_empty-get_completed_steps :
    (s : Saga) → is_empty (get_completed_steps s) ≡ not (exists is_completed s.steps)
is_empty-get_completed_steps s =
    ap is_empty (get_completed_steps_lem s)
    ∙ is_empty-reverse (select is_completed s.steps)
    ∙ is_empty-select s.steps

pub select_nothing :
    (steps : List SagaStep) → exists is_completed steps ≡ false → select is_completed steps ≡ []
select_nothing [] h = refl
select_nothing (step ∷ steps) h = ground (arith, select_nothing steps)

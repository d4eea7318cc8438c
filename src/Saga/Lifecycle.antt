-- ===== src/Saga/Lifecycle.antt =====
-- What holds of a saga through its life, between any calls of the orchestrator of
-- engine/internal/core/saga/orchestrator.go.
pub mod Runs
use proctssor.Prelude.{
  ℕ, zero, suc, ◌+◌, ◌<◌, ℤ, pos, negsuc, String, ◌≡◌, refl, sym, ◌∙◌, ap, Bool, true, false, List,
  [], ◌∷◌, ◌++◌, Option, none, some, if◌then◌else◌, is_some, length, length-set, length-append,
  get_elem?, get_elem?-lt, get_elem?-All, set, All, All-set, All-append, Result, Result-cases, ok,
  err, exists, select, reverse, arith, Bool-cases, Option-cases, inl, inr, subst,
}
use Prim.Native.String.{◌++◌ as text_append}
use proctssor.Token.{Variables}
use proctssor.Execution.{ExecutionResult}
use proctssor.Bpmn.Process.{FlowElement}
use proctssor.Bpmn.Graph.{Graph}
use proctssor.Bpmn.Graph.Queries.{get_element_by_id}
use proctssor.Saga.Model.{
  SagaStatus, SagaStepStatus, SagaStep, Saga, StepSpec, new_saga, new_step, append_step,
  is_completed, is_failed, get_pending_steps,
}
use proctssor.Saga.Calls.{
  Trace, SagaOrchestrator, SagaFault, executed, persist, not_updated, not_completed,
}
use proctssor.Saga.Compensate.{CompensationClock, mark_steps, roll_back, compensate}
use proctssor.Saga.Compensate.Order.{compensate-idle, compensate-busy}
use proctssor.Saga.Compensate.Result.{persist-saga}
use proctssor.Saga.Execute.{StepClock, fail_step, give_up, complete_step, run_step, execute_step}
use proctssor.Saga.Execute.Success.{execute_step-run}
use proctssor.Saga.Orchestrator.{start_saga, add_step, complete_saga, fail_saga}

-- A step that was executed, undone or failed says when, or why.
pub record IsSound (step : SagaStep) : Type 0 where
  pub executed : step.status ≡ SagaStepStatus.completed → is_some step.executed_at ≡ true
  pub undone :
      step.status ≡ SagaStepStatus.compensated
      → (is_some step.executed_at ≡ true) × (is_some step.compensated_at ≡ true)
  pub failed : step.status ≡ SagaStepStatus.failed → is_some step.error ≡ true

-- The current index is -1, or that of a step.
abbrev pub IsIndex : ℤ → ℕ → Type 0
IsIndex (pos n) k = n < k
IsIndex (negsuc zero) k = Unit
IsIndex (negsuc (suc n)) k = ⊥

pub record IsWellFormed (s : Saga) : Type 0 where
  pub index : IsIndex s.current_step_index (length s.steps)
  pub steps : All IsSound s.steps
  pub ended : s.status ≡ SagaStatus.completed → is_some s.completed_at ≡ true

IsIndex-grow : (i : ℤ) (k m : ℕ) → k < suc m → IsIndex i k → IsIndex i m
IsIndex-grow (pos n) k m h v = omega arith
IsIndex-grow (negsuc zero) k m h v = tt
IsIndex-grow (negsuc (suc n)) k m h v = v

mark_steps-All :
    (now : ℕ → ℕ) (i : ℕ) (all : Bool) (steps : List SagaStep)
    → All IsSound steps
    → All IsSound (mark_steps now i all steps).0
unfolding mark_steps
mark_steps-All now i all [] h = tt
mark_steps-All now i all (step ∷ steps) h = (
  ground (arith, h.0),
  mark_steps-All now (i + 1) (if is_failed step then false else all) steps h.1,
)

mark_steps-length :
    (now : ℕ → ℕ) (i : ℕ) (all : Bool) (steps : List SagaStep)
    → length (mark_steps now i all steps).0 ≡ length steps
unfolding mark_steps
mark_steps-length now i all [] = refl
mark_steps-length now i all (step ∷ steps) =
    ap suc (mark_steps-length now (i + 1) (if is_failed step then false else all) steps)

-- A saga whose steps alone were replaced, by as many, and that is not completed.
IsWellFormed-steps :
    (s s' : Saga)
    → IsWellFormed s
    → s'.current_step_index ≡ s.current_step_index
    → length s'.steps ≡ length s.steps
    → All IsSound s'.steps
    → (s'.status ≡ SagaStatus.completed → ⊥)
    → IsWellFormed s'
IsWellFormed-steps s s' h i n all other = record {
  index = rw (i, n) h.index;
  steps = all;
  ended = λ e. absurd (other e);
}

roll_back-steps :
    (o : SagaOrchestrator) (trace : Trace) (clock : CompensationClock) (s : Saga)
    (done : List SagaStep)
    → (roll_back o trace clock s done).0.steps ≡ (mark_steps clock.marked 0 true s.steps).0
unfolding roll_back persist
roll_back-steps o trace clock s done = ground arith

roll_back-IsWellFormed :
    (o : SagaOrchestrator) (trace : Trace) (clock : CompensationClock) (s : Saga)
    (done : List SagaStep)
    → IsWellFormed s
    → IsWellFormed (roll_back o trace clock s done).0
unfolding roll_back persist
roll_back-IsWellFormed o trace clock s done h =
    IsWellFormed-steps s (roll_back o trace clock s done).0 h (ground arith)
      (ground (arith, mark_steps-length clock.marked 0 true s.steps))
      (rw (roll_back-steps o trace clock s done)
        (mark_steps-All clock.marked 0 true s.steps h.steps))
      (ground arith)

pub compensate-IsWellFormed :
    (o : SagaOrchestrator) (trace : Trace) (clock : CompensationClock) (s : Saga)
    → IsWellFormed s
    → IsWellFormed (compensate o trace clock s).0
compensate-IsWellFormed o trace clock s h = elim (Bool-cases (exists is_completed s.steps)) [
  | inl busy ↦
      let s' : Saga = record s { status = SagaStatus.compensating } in
      let done = reverse (select is_completed s.steps) in
      rw (compensate-busy o trace clock s busy) (
        roll_back-IsWellFormed o trace clock s' done
          (record { index = h.index; steps = h.steps; ended = λ e. cc }))
  | inr idle ↦
      rw (compensate-idle o trace clock s idle)
        (record { index = h.index; steps = h.steps; ended = λ e. cc })
]

-- A failed step in the place of a step.
set_step-IsWellFormed :
    (s s' : Saga) (n : ℕ) (step step' : SagaStep)
    → IsWellFormed s
    → get_elem? s.steps n ≡ some step
    → s'.current_step_index ≡ pos n
    → s'.steps ≡ set s.steps n step'
    → IsSound step'
    → s'.status ≡ s.status
    → s'.completed_at ≡ s.completed_at
    → IsWellFormed s'
set_step-IsWellFormed s s' n step step' h here i e sound status at = record {
  index = rw (i, e, length-set s.steps n step') (get_elem?-lt s.steps n step here);
  steps = rw e (All-set IsSound s.steps n step' h.steps sound);
  ended = rw (status, at) h.ended;
}

give_up-IsWellFormed :
    (o : SagaOrchestrator) (trace : Trace) (clock : StepClock) (s : Saga) (message : String)
    → IsWellFormed s
    → IsWellFormed (give_up o trace clock s message).0
unfolding give_up
give_up-IsWellFormed o trace clock s message h =
    let v = compensate-IsWellFormed o trace clock.compensation s h in
    elim (Bool-cases (is_some (compensate o trace clock.compensation s).1)) [
      | inl broken ↦ rw broken (record { index = v.index; steps = v.steps; ended = λ e. cc })
      | inr fine ↦ rw fine v
    ]

run_step-IsWellFormed :
    (o : SagaOrchestrator) (trace : Trace) (clock : StepClock) (graph : Graph) (s : Saga) (n : ℕ)
    (step : SagaStep)
    → get_elem? s.steps n ≡ some step
    → IsWellFormed s
    → IsWellFormed (run_step o trace clock graph s n step).0
unfolding complete_step fail_step run_step
run_step-IsWellFormed o trace clock graph s n step here h =
    elim (Option-cases (get_element_by_id graph step.node_id)) [
      | inl missing ↦
          rw (missing, run_step)
            (set_step-IsWellFormed s _ n step _ h here refl refl (ground arith) refl refl)
      | inr (node, known) ↦ elim (Result-cases (o.executor trace graph node step.input_variables)) [
        | inr (message, failed) ↦
            rw (known, run_step)
              (rw failed (
                give_up-IsWellFormed o _ clock _ message
                  (set_step-IsWellFormed s _ n step _ h here refl refl (ground arith) refl refl)))
        | inl (result, done) ↦
            rw (known, run_step)
              (rw done (
                rw (persist-saga o (trace ++ executed node step.input_variables ∷ []) _ not_updated)
                  (set_step-IsWellFormed s _ n step _ h here refl refl (ground arith) refl refl)))
      ]
    ]

pub execute_step-IsWellFormed :
    (o : SagaOrchestrator) (trace : Trace) (clock : StepClock) (graph : Graph) (s : Saga) (i : ℤ)
    → IsWellFormed s
    → IsWellFormed (execute_step o trace clock graph s i).0
unfolding execute_step
execute_step-IsWellFormed o trace clock graph s (negsuc n) h = h
execute_step-IsWellFormed o trace clock graph s (pos n) h =
    elim (Option-cases (get_elem? s.steps n)) [
      | inl gone ↦ rw (gone, execute_step) h
      | inr (step, here) ↦
          rw (execute_step-run o trace clock graph s n step here)
            (run_step-IsWellFormed o trace clock graph s n step here h)
    ]

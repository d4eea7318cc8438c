-- ===== src/Saga/Compensate/Result.antt =====
-- The saga that a compensation leaves: engine/internal/core/saga/orchestrator.go.
use proctssor.Prelude.{
  ℕ, ◌+◌, String, ◌≡◌, refl, Bool, true, false, not, ◌&&◌, List, [], ◌∷◌, map, if◌then◌else◌,
  exists, arith, Bool-cases, inl, inr, reverse, select,
}
use proctssor.Saga.Model.{SagaStatus, SagaStepStatus, SagaStep, Saga, is_completed, is_failed}
use proctssor.Saga.Calls.{Trace, SagaOrchestrator, SagaFault, persist}
use proctssor.Saga.Compensate.{CompensationClock, mark_steps, roll_back, compensate}
use proctssor.Saga.Compensate.Order.{compensate-idle, compensate-busy}

-- What becomes of the status of a step.
abbrev pub after : SagaStepStatus → SagaStepStatus
after SagaStepStatus.completed = SagaStepStatus.compensated
after status = status

abbrev pub statuses : Saga → List SagaStepStatus
statuses s = map (λ step. step.status) s.steps

mark_steps-statuses :
    (now : ℕ → ℕ) (i : ℕ) (all : Bool) (steps : List SagaStep)
    → map (λ step. step.status) (mark_steps now i all steps).0
      ≡ map (λ step. after step.status) steps
unfolding mark_steps
mark_steps-statuses now i all [] = refl
mark_steps-statuses now i all (step ∷ steps) =
    ground (arith, mark_steps-statuses now (i + 1) (if is_failed step then false else all) steps)

mark_steps-all :
    (now : ℕ → ℕ) (i : ℕ) (all : Bool) (steps : List SagaStep)
    → (mark_steps now i all steps).1 ≡ (all && not (exists is_failed steps))
unfolding mark_steps
mark_steps-all now i all [] = ground arith
mark_steps-all now i all (step ∷ steps) =
    ground (arith, mark_steps-all now (i + 1) (if is_failed step then false else all) steps)

pub persist-saga :
    (o : SagaOrchestrator) (trace : Trace) (s : Saga) (fault : String → SagaFault)
    → (persist o trace s fault).0 ≡ s
unfolding persist
persist-saga o trace s fault = ground arith

unmarked :
    (steps : List SagaStep)
    → exists is_completed steps ≡ false
    → map (λ step. step.status) steps ≡ map (λ step. after step.status) steps
unmarked [] h = refl
unmarked (step ∷ steps) h = ground (arith, unmarked steps)

roll_back-result :
    (o : SagaOrchestrator) (trace : Trace) (clock : CompensationClock) (s : Saga)
    (done : List SagaStep)
    → let s' = (roll_back o trace clock s done).0 in
      (statuses s' ≡ map (λ step. after step.status) s.steps)
      × (s'.status
          ≡ (if exists is_failed s.steps then SagaStatus.failed else SagaStatus.compensated))
unfolding roll_back persist
roll_back-result o trace clock s done = ground (
  arith,
  mark_steps-statuses clock.marked 0 true s.steps,
  mark_steps-all clock.marked 0 true s.steps,
)

-- Every completed step ends as compensated and every other step keeps its status, whatever the
-- handler and the repository answer. The saga ends as failed if it had a completed step to undo
-- and also a failed one, and as compensated otherwise.
pub compensate-result :
    (o : SagaOrchestrator) (trace : Trace) (clock : CompensationClock) (s : Saga)
    → let s' = (compensate o trace clock s).0 in
      let broken = exists is_completed s.steps && exists is_failed s.steps in
      (statuses s' ≡ map (λ step. after step.status) s.steps)
      × (s'.status ≡ (if broken then SagaStatus.failed else SagaStatus.compensated))
compensate-result o trace clock s = elim (Bool-cases (exists is_completed s.steps)) [
  | inl busy ↦
      let s' : Saga = record s { status = SagaStatus.compensating } in
      let done = reverse (select is_completed s.steps) in
      rw (compensate-busy o trace clock s busy, busy) (roll_back-result o trace clock s' done)
  | inr idle ↦ rw (compensate-idle o trace clock s idle, idle) (unmarked s.steps idle, refl)
]

-- The saga that comes back does not depend on the handler: two orchestrators, one whose handler
-- refuses every compensation and one that has none, leave the same saga.
pub compensate-handler_irrelevant :
    (o o' : SagaOrchestrator) (trace trace' : Trace) (clock : CompensationClock) (s : Saga)
    → (compensate o trace clock s).0 ≡ (compensate o' trace' clock s).0
unfolding compensate roll_back persist
compensate-handler_irrelevant o o' trace trace' clock s = ground arith

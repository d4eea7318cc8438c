-- ===== src/Saga/Compensate.antt =====
-- `Compensate` and `compensateStep` of engine/internal/core/saga/orchestrator.go.
pub mod Order
pub mod Result
use proctssor.Prelude.{
  ℕ, ◌+◌, String, ◌==◌, Bool, true, false, List, [], ◌∷◌, ◌++◌, Option, none, some, if◌then◌else◌,
  is_empty, ok, err,
}
use proctssor.Saga.Model.{
  SagaStatus, SagaStepStatus, SagaStep, Saga, is_completed, is_failed, get_completed_steps,
}
use proctssor.Saga.Calls.{compensated, Trace, SagaOrchestrator, not_updated, Outcome, persist}

-- The clock readings that one `Compensate` takes: for the i-th step it handles, behind the loop,
-- for the i-th step that it marks, and at the end.
pub record CompensationClock : Type 0 where
  pub handled : ℕ → ℕ
  pub updated : ℕ
  pub marked : ℕ → ℕ
  pub completed : ℕ

-- `compensateStep`, on a copy of the step: the copy and an error come back.
unfoldable pub compensate_step :
    SagaOrchestrator → Trace → ℕ → SagaStep → SagaStep × Option String × Trace
compensate_step o trace now step =
    let stamped = λ (s : SagaStep). record s { compensated_at = some now } in
    elim o.compensation_handler [
      | none ↦ (stamped step, none, trace)
      | some handle ↦
          let id = step.compensate_node_id in
          let name = step.compensate_node_name in
          let input = step.compensate_input_variables in
          let trace' = trace ++ compensated id name input ∷ [] in
          elim (handle trace id name input) [
            | err message ↦ (step, some message, trace')
            | ok result ↦ (
              stamped (record step { compensate_input_variables = result.variables }),
              none,
              trace',
            )
          ]
    ]

-- The loop over the completed steps. An error of a step is only logged, and the step that was
-- changed is the loop's own copy, so only the calls remain.
unfoldable pub compensate_steps : SagaOrchestrator → Trace → (ℕ → ℕ) → ℕ → List SagaStep → Trace
compensate_steps o trace now i [] = trace
compensate_steps o trace now i (step ∷ steps) =
    compensate_steps o
      (if step.compensate_node_id == "" then trace else (compensate_step o trace (now i) step).2)
      now (i + 1) steps

-- The loop over all steps: completed ones are marked as compensated, and the flag falls at a
-- failed one.
unfoldable pub mark_steps : (ℕ → ℕ) → ℕ → Bool → List SagaStep → List SagaStep × Bool
mark_steps now i all [] = ([], all)
mark_steps now i all (step ∷ steps) =
    let step' =
      if is_completed step
      then record step { status = SagaStepStatus.compensated; compensated_at = some (now i) }
      else step in
    let (steps', all') = mark_steps now (i + 1) (if is_failed step then false else all) steps in
    (step' ∷ steps', all')

-- `Compensate` behind the test for completed steps: the loops, the new status and the update.
unfoldable pub roll_back :
    SagaOrchestrator → Trace → CompensationClock → Saga → List SagaStep → Outcome
roll_back o trace clock s done =
    let (steps', all) = mark_steps clock.marked 0 true s.steps in
    let s' = record s { updated_at = clock.updated; steps = steps' } in
    persist o (compensate_steps o trace clock.handled 0 done)
      (if all
        then record s' { status = SagaStatus.compensated; completed_at = some clock.completed }
        else record s' { status = SagaStatus.failed })
      not_updated

unfoldable pub compensate : SagaOrchestrator → Trace → CompensationClock → Saga → Outcome
compensate o trace clock saga =
    let s = record saga { status = SagaStatus.compensating } in
    let done = get_completed_steps s in
    if is_empty done
    then (record s { status = SagaStatus.compensated }, none, trace)
    else roll_back o trace clock s done

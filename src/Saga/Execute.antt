-- ===== src/Saga/Execute.antt =====
-- `ExecuteStep` of engine/internal/core/saga/orchestrator.go.
pub mod Success
pub mod Failure
use proctssor.Prelude.{
  ℕ, ℤ, pos, negsuc, String, [], ◌∷◌, ◌++◌, merge, none, some, if◌then◌else◌, is_some, get_elem?,
  set, ok, err,
}
use Prim.Native.String.{◌++◌ as text_append}
use proctssor.Token.{Variables}
use proctssor.Bpmn.Graph.{Graph}
use proctssor.Bpmn.Graph.Queries.{get_element_by_id}
use proctssor.Saga.Model.{SagaStatus, SagaStepStatus, SagaStep, Saga}
use proctssor.Saga.Calls.{
  executed, Trace, SagaOrchestrator, invalid_step_index, node_not_found, execution_failed,
  not_updated, Outcome, persist,
}
use proctssor.Saga.Compensate.{CompensationClock, compensate}

-- The clock readings of `ExecuteStep`.
pub record StepClock : Type 0 where
  pub executed : ℕ
  pub updated : ℕ
  pub compensation : CompensationClock

unfoldable pub fail_step : String → String → SagaStep → SagaStep
fail_step code message step = record step {
  status = SagaStepStatus.failed;
  error = some (record { code = code; message = message; node_id = step.node_id });
}

-- The branch of `ExecuteStep` behind a failed execution: an error of the compensation fails the
-- saga, and is not the error that is returned.
unfoldable pub give_up : SagaOrchestrator → Trace → StepClock → Saga → String → Outcome
give_up o trace clock s message =
    let (s', fault, trace') = compensate o trace clock.compensation s in
    (
      if is_some fault then record s' { status = SagaStatus.failed } else s',
      some (execution_failed message),
      trace',
    )

unfoldable pub complete_step :
    SagaOrchestrator → Trace → StepClock → Saga → ℕ → SagaStep → Variables → Outcome
complete_step o trace clock s n step output =
    let step' = record step {
      status = SagaStepStatus.completed;
      output_variables = output;
      executed_at = some clock.executed;
      compensate_input_variables = merge step.compensate_input_variables output;
    } in
    persist o trace
      (record s {
        steps = set s.steps n step';
        variables = merge s.variables output;
        updated_at = clock.updated;
      })
      not_updated

-- `ExecuteStep` from where the step is known. The step returned beside the error is the one at
-- the index in the saga.
unfoldable pub run_step :
    SagaOrchestrator → Trace → StepClock → Graph → Saga → ℕ → SagaStep → Outcome
run_step o trace clock graph saga n step =
    let s = record saga { current_step_index = pos n } in
    elim (get_element_by_id graph step.node_id) [
      | none ↦
          let message = text_append "node not found: " step.node_id in
          (
            record s { steps = set s.steps n (fail_step "NODE_NOT_FOUND" message step) },
            some (node_not_found step.node_id),
            trace,
          )
      | some node ↦
          let trace' = trace ++ executed node step.input_variables ∷ [] in
          elim (o.executor trace graph node step.input_variables) [
            | err message ↦
                give_up o trace' clock
                  (record s { steps = set s.steps n (fail_step "EXECUTION_FAILED" message step) })
                  message
            | ok result ↦ complete_step o trace' clock s n step result.variables
          ]
    ]

unfoldable pub execute_step : SagaOrchestrator → Trace → StepClock → Graph → Saga → ℤ → Outcome
execute_step o trace clock graph saga (negsuc n) =
    (saga, some (invalid_step_index (negsuc n)), trace)
execute_step o trace clock graph saga (pos n) = elim (get_elem? saga.steps n) [
  | none ↦ (saga, some (invalid_step_index (pos n)), trace)
  | some step ↦ run_step o trace clock graph saga n step
]

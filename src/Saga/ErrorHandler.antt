-- ===== src/Saga/ErrorHandler.antt =====
-- The error handlers of sagas: engine/internal/core/saga/error_handler.go. `render` stands for
-- the text that `fmt.Errorf` and `Error` make of an error. `RegisterSagaHooks` does nothing.
pub mod Decisions
pub mod Tasks
use proctssor.Prelude.{
  ℕ, String, Bool, true, false, not, ◌&&◌, List, [], Option, none, some, if◌then◌else◌, is_empty,
  Result, ok, err,
}
use proctssor.Execution.{ExecutionError, ExecutionResult, zero_result}
use proctssor.Token.{Variables}
use proctssor.Bpmn.Process.{FlowElement, is_compensatable}
use proctssor.Bpmn.Elements.{ServiceTask}
use proctssor.Saga.Model.{SagaStatus, Saga, StepSpec, get_completed_steps, has_compensation}
use proctssor.Saga.Calls.{Trace, SagaOrchestrator, SagaFault}
use proctssor.Saga.Compensate.{CompensationClock, compensate}
use proctssor.Saga.Orchestrator.{add_step}

-- The errors that `HandleError` returns, about the error that it was called with.
pub data Handled : Type 0 where
  plain : String → Handled
  compensation_completed : String → Handled
  compensation_failed : String → SagaFault → Handled

-- `shouldCompensate`; the node is only logged.
unfoldable pub should_compensate : Saga → Bool
should_compensate s =
    if not (has_compensation s)
    then false
    else if is_empty (get_completed_steps s)
    then false
    else true

unfoldable pub handle_error :
    SagaOrchestrator → Trace → CompensationClock → Saga → String → Saga × Handled × Trace
handle_error o trace clock s error =
    let (s', fault, trace') = compensate o trace clock s in
    let handled : Handled = elim fault [
      | none ↦ compensation_completed error
      | some f ↦ compensation_failed error f
    ] in
    if should_compensate s then (s', handled, trace') else (s, plain error, trace)

abbrev pub is_failed_saga : SagaStatus → Bool
is_failed_saga status = elim status [ SagaStatus.failed ↦ true | _ ↦ false ]

-- `HandleErrorWithResult`.
unfoldable pub handle_error_with_result :
    (Handled → String)
    → SagaOrchestrator
    → Trace
    → CompensationClock
    → Saga
    → String
    → String
    → Saga × ExecutionResult × Trace
handle_error_with_result render o trace clock s error node_id =
    let (s', handled, trace') = handle_error o trace clock s error in
    let e : ExecutionError = record {
      code = "SAGA_ERROR";
      message = render handled;
      node_id = node_id;
    } in
    (s', record zero_result { error = some e; terminated = is_failed_saga s'.status }, trace')

-- `ExecuteCompensation` of `CompensationExecutor`: without an executor it answers with the
-- variables that it was given. The graph handed on is nil, which is `none` here.
unfoldable pub execute_compensation {ℓ} :
    {Graph : Type ℓ}
    → Option (Option Graph → FlowElement → Variables → Result String ExecutionResult)
    → FlowElement
    → Variables
    → Result String ExecutionResult
execute_compensation exec node variables = elim exec [
  | none ↦ ok (record zero_result { variables = variables })
  | some execute ↦ execute none node variables
]

-- The result that `HandleServiceTaskError` gives for a code and a text.
abbrev pub task_error : ServiceTask → String → String → ExecutionResult
task_error node code message = record zero_result {
  error = some (record { code = code; message = message; node_id = node.id });
}

-- `HandleServiceTaskError`: the fresh identifier and the time are for the step that it adds. An
-- error of `AddStep` is only logged.
unfoldable pub handle_service_task_error :
    (Handled → String)
    → SagaOrchestrator
    → Trace
    → String
    → ℕ
    → CompensationClock
    → Saga
    → ServiceTask
    → String
    → Saga × ExecutionResult × Trace
handle_service_task_error render o trace fresh now clock s node error =
    let a : StepSpec = record {
      node_id = node.id;
      node_name = node.name;
      compensate_node_id = node.compensate_node_id;
      compensate_node_name = "";
      input_variables = [];
    } in
    let added : Saga × Option SagaFault × Trace =
      if is_compensatable node then add_step o trace fresh now a s else (s, none, trace) in
    let (s', fault, trace') = compensate o added.2 clock added.0 in
    let result : ExecutionResult = elim fault [
      | none ↦ task_error node "COMPENSATED" (render (compensation_completed error))
      | some f ↦ task_error node "COMPENSATION_FAILED" (render (compensation_failed error f))
    ] in
    if has_compensation added.0
    then (s', result, trace')
    else (added.0, task_error node "EXECUTION_FAILED" error, added.2)

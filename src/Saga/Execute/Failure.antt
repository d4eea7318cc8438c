-- ===== src/Saga/Execute/Failure.antt =====
-- A step that fails: engine/internal/core/saga/orchestrator.go.
use proctssor.Prelude.{
  ℕ, zero, suc, ℤ, pos, negsuc, String, ◌≡◌, ◌≤◌, refl, ap, true, List, [], ◌∷◌, ◌++◌, map, none,
  some, err, get_elem?, get_elem?-far, set, length, if◌then◌else◌, exists, arith, Bool-cases, inl,
  inr,
}
use Prim.Native.String.{◌++◌ as text_append}
use proctssor.Bpmn.Process.{FlowElement}
use proctssor.Bpmn.Graph.{Graph}
use proctssor.Bpmn.Graph.Queries.{get_element_by_id}
use proctssor.Saga.Model.{SagaStatus, SagaStepStatus, SagaStep, Saga, is_completed, is_failed}
use proctssor.Saga.Calls.{
  Trace, SagaOrchestrator, executed, invalid_step_index, node_not_found, execution_failed,
}
use proctssor.Saga.Compensate.Order.{compensate-idle}
use proctssor.Saga.Compensate.Result.{after, statuses, compensate-result}
use proctssor.Saga.Execute.{StepClock, fail_step, give_up, run_step, execute_step}
use proctssor.Saga.Execute.Success.{execute_step-run}

run_step-give_up :
    (o : SagaOrchestrator) (trace : Trace) (clock : StepClock) (graph : Graph) (s : Saga) (n : ℕ)
    (step : SagaStep) (node : FlowElement) (message : String)
    → get_element_by_id graph step.node_id ≡ some node
    → o.executor trace graph node step.input_variables ≡ err message
    → run_step o trace clock graph s n step
      ≡ give_up o
          (trace ++ executed node step.input_variables ∷ [])
          clock
          (record s {
            current_step_index = pos n;
            steps = set s.steps n (fail_step "EXECUTION_FAILED" message step);
          })
          message
unfolding run_step
run_step-give_up o trace clock graph s n step node message known failed =
    rw (known, run_step) (rw failed)

set-failed :
    (steps : List SagaStep) (n : ℕ) (step step' : SagaStep)
    → get_elem? steps n ≡ some step
    → step'.status ≡ SagaStepStatus.failed
    → exists is_failed (set steps n step') ≡ true
set-failed [] n step step' h f = cc
set-failed (x ∷ steps) zero step step' h f = ground arith
set-failed (x ∷ steps) (suc n) step step' h f = ground (arith, set-failed steps n step step')

set-statuses :
    (steps : List SagaStep) (n : ℕ) (step' : SagaStep)
    → map (λ step. after step.status) (set steps n step')
      ≡ set (map (λ step. after step.status) steps) n (after step'.status)
set-statuses [] n step' = refl
set-statuses (x ∷ steps) zero step' = refl
set-statuses (x ∷ steps) (suc n) step' = ap (λ l. after x.status ∷ l) (set-statuses steps n step')

give_up-result :
    (o : SagaOrchestrator) (trace : Trace) (clock : StepClock) (s : Saga) (message : String)
    → exists is_failed s.steps ≡ true
    → let (s', fault, _) = give_up o trace clock s message in
      (fault ≡ some (execution_failed message))
      × (statuses s' ≡ map (λ step. after step.status) s.steps)
      × (s'.status
          ≡ (if exists is_completed s.steps then SagaStatus.failed else SagaStatus.compensated))
unfolding give_up
give_up-result o trace clock s message failed = elim (Bool-cases (exists is_completed s.steps)) [
  | inl busy ↦ ground (arith, compensate-result o trace clock.compensation s)
  | inr idle ↦ ground (
    arith,
    compensate-result o trace clock.compensation s,
    compensate-idle o trace clock.compensation s idle,
  )
]

-- If the execution of the node fails, the error that comes back is that of the execution, the
-- step ends as failed, every other completed step as compensated, and the others keep their
-- status. The saga ends as failed if any other step was completed, and as compensated if none
-- was: with something to undo, it is never reported as compensated, whatever the compensations
-- and the repository answer.
pub execute_step-failure :
    (o : SagaOrchestrator) (trace : Trace) (clock : StepClock) (graph : Graph) (s : Saga) (n : ℕ)
    (step : SagaStep) (node : FlowElement) (message : String)
    → get_elem? s.steps n ≡ some step
    → get_element_by_id graph step.node_id ≡ some node
    → o.executor trace graph node step.input_variables ≡ err message
    → let (s', fault, _) = execute_step o trace clock graph s (pos n) in
      let undone =
        exists is_completed (set s.steps n (fail_step "EXECUTION_FAILED" message step)) in
      (fault ≡ some (execution_failed message))
      × (statuses s' ≡ set (map (λ step. after step.status) s.steps) n SagaStepStatus.failed)
      × (s'.status ≡ (if undone then SagaStatus.failed else SagaStatus.compensated))
unfolding fail_step
execute_step-failure o trace clock graph s n step node message here known failed =
    let step' = fail_step "EXECUTION_FAILED" message step in
    let s' : Saga = record s { current_step_index = pos n; steps = set s.steps n step' } in
    let trace' = trace ++ executed node step.input_variables ∷ [] in
    rw
      (
        execute_step-run o trace clock graph s n step here,
        run_step-give_up o trace clock graph s n step node message known failed,
        ← set-statuses s.steps n step',
      )
      (give_up-result o trace' clock s' message (set-failed s.steps n step step' here refl))

-- The indices that no step has.
abbrev pub Outside : ℤ → ℕ → Type 0
Outside (pos n) k = k ≤ n
Outside (negsuc n) k = Unit

-- `ExecuteStep` at an index outside the steps changes nothing, makes no call and reports the
-- index.
pub execute_step-Outside :
    (o : SagaOrchestrator) (trace : Trace) (clock : StepClock) (graph : Graph) (s : Saga) (i : ℤ)
    → Outside i (length s.steps)
    → execute_step o trace clock graph s i ≡ (s, some (invalid_step_index i), trace)
unfolding execute_step
execute_step-Outside o trace clock graph s (pos n) h = rw (get_elem?-far s.steps n h, execute_step)
execute_step-Outside o trace clock graph s (negsuc n) h = refl

-- If the node of the step is not in the graph, the step ends as failed and nothing else changes
-- but the current index. No call is made: unlike a failed execution, a missing node neither
-- compensates the completed steps nor stores the saga.
pub execute_step-unknown :
    (o : SagaOrchestrator) (trace : Trace) (clock : StepClock) (graph : Graph) (s : Saga) (n : ℕ)
    (step : SagaStep)
    → get_elem? s.steps n ≡ some step
    → get_element_by_id graph step.node_id ≡ none
    → let message = text_append "node not found: " step.node_id in
      execute_step o trace clock graph s (pos n) ≡ (
        record s {
          current_step_index = pos n;
          steps = set s.steps n (fail_step "NODE_NOT_FOUND" message step);
        },
        some (node_not_found step.node_id),
        trace,
      )
unfolding run_step
execute_step-unknown o trace clock graph s n step here missing =
    rw (execute_step-run o trace clock graph s n step here, missing, run_step)

-- ===== src/Saga/Execute/Success.antt =====
-- A step that succeeds: engine/internal/core/saga/orchestrator.go.
use proctssor.Prelude.{
  ℕ, pos, String, ◌≡◌, ◌≢◌, refl, some, ok, get_elem?, lookup, lookup-merge, or_else, [], ◌∷◌, ◌++◌,
  get_elem?-lt, get_elem?-set_self, get_elem?-set_ne,
}
use proctssor.Token.{Variables}
use proctssor.Execution.{ExecutionResult}
use proctssor.Bpmn.Process.{FlowElement}
use proctssor.Bpmn.Graph.{Graph}
use proctssor.Bpmn.Graph.Queries.{get_element_by_id}
use proctssor.Saga.Model.{SagaStepStatus, SagaStep, Saga}
use proctssor.Saga.Calls.{Trace, SagaOrchestrator, executed, not_updated}
use proctssor.Saga.Execute.{StepClock, complete_step, run_step, execute_step}
use proctssor.Saga.Compensate.Result.{persist-saga}

-- The promise of a step that succeeds: the step at `n` is completed, has the output, and keeps
-- it for its compensation; the saga takes the output over into its variables; the other steps
-- are as they were.
pub record Succeeded (s s' : Saga) (n : ℕ) (step : SagaStep) (output : Variables) : Type 0 where
  pub step' : SagaStep
  pub found : get_elem? s'.steps n ≡ some step'
  pub completed : step'.status ≡ SagaStepStatus.completed
  pub output_kept : step'.output_variables ≡ output
  pub undo_input :
      (k : String)
      → lookup k step'.compensate_input_variables
        ≡ or_else (lookup k output) (lookup k step.compensate_input_variables)
  pub merged :
      (k : String) → lookup k s'.variables ≡ or_else (lookup k output) (lookup k s.variables)
  pub others : (j : ℕ) → n ≢ j → get_elem? s'.steps j ≡ get_elem? s.steps j
  pub index : s'.current_step_index ≡ pos n
  pub status : s'.status ≡ s.status

pub execute_step-run :
    (o : SagaOrchestrator) (trace : Trace) (clock : StepClock) (graph : Graph) (s : Saga) (n : ℕ)
    (step : SagaStep)
    → get_elem? s.steps n ≡ some step
    → execute_step o trace clock graph s (pos n) ≡ run_step o trace clock graph s n step
unfolding execute_step
execute_step-run o trace clock graph s n step here = rw (here, execute_step)

run_step_complete :
    (o : SagaOrchestrator) (trace : Trace) (clock : StepClock) (graph : Graph) (s : Saga) (n : ℕ)
    (step : SagaStep) (node : FlowElement) (result : ExecutionResult)
    → get_element_by_id graph step.node_id ≡ some node
    → o.executor trace graph node step.input_variables ≡ ok result
    → run_step o trace clock graph s n step
      ≡ complete_step o
          (trace ++ executed node step.input_variables ∷ [])
          clock
          (record s { current_step_index = pos n })
          n
          step
          result.variables
unfolding run_step
run_step_complete o trace clock graph s n step node result known done =
    rw (known, run_step) (rw done)

-- If the node of the step is in the graph and its execution succeeds, the step succeeds in the
-- saga that comes back, also where storing it fails.
pub execute_step-success :
    (o : SagaOrchestrator) (trace : Trace) (clock : StepClock) (graph : Graph) (s : Saga) (n : ℕ)
    (step : SagaStep) (node : FlowElement) (result : ExecutionResult)
    → get_elem? s.steps n ≡ some step
    → get_element_by_id graph step.node_id ≡ some node
    → o.executor trace graph node step.input_variables ≡ ok result
    → Succeeded s (execute_step o trace clock graph s (pos n)).0 n step result.variables
unfolding complete_step
execute_step-success o trace clock graph s n step node result here known done =
    let input = step.input_variables in
    rw
      (
        execute_step-run o trace clock graph s n step here,
        run_step_complete o trace clock graph s n step node result known done,
      )
      (rw (persist-saga o (trace ++ executed node input ∷ []) _ not_updated) (record {
        step' = _;
        found = get_elem?-set_self s.steps n _ (get_elem?-lt s.steps n step here);
        completed = refl;
        output_kept = refl;
        undo_input = λ k. lookup-merge k step.compensate_input_variables result.variables;
        merged = λ k. lookup-merge k s.variables result.variables;
        others = λ j h. get_elem?-set_ne s.steps _ h;
        index = refl;
        status = refl;
      }))

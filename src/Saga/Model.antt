-- ===== src/Saga/Model.antt =====
-- A saga and its steps: engine/internal/core/saga/model.go. Maps are values: that two fields may
-- hold one Go map is left out.
pub mod Completed
use proctssor.Prelude.{
  ℕ, zero, suc, ℤ, pos, negsuc, String, ◌==◌, Bool, true, false, not, ◌&&◌, List, [], ◌∷◌, ◌++◌,
  Option, none, some, select, exists, drop, get_elem?, length, if◌then◌else◌,
}
use proctssor.Token.{Variables}

pub data SagaStatus : Type 0 where
  pending running compensating completed failed compensated : SagaStatus

pub data SagaStepStatus : Type 0 where
  pending completed compensated failed : SagaStepStatus

pub record SagaError : Type 0 where
  pub code : String
  pub message : String
  pub node_id : String

pub record SagaStep : Type 0 where
  pub id : String
  pub node_id : String
  pub node_name : String
  pub status : SagaStepStatus
  pub compensate_node_id : String
  pub compensate_node_name : String
  pub input_variables : Variables
  pub output_variables : Variables
  pub compensate_input_variables : Variables
  pub error : Option SagaError
  pub executed_at : Option ℕ
  pub compensated_at : Option ℕ

pub record Saga : Type 0 where
  pub id : String
  pub instance_id : String
  pub process_key : String
  pub status : SagaStatus
  pub steps : List SagaStep
  pub current_step_index : ℤ
  pub variables : Variables
  pub error : Option SagaError
  pub created_at : ℕ
  pub updated_at : ℕ
  pub completed_at : Option ℕ

-- `NewSaga`, with the identifier that `uuid.New` gives.
unfoldable pub new_saga : String → ℕ → String → String → Variables → Saga
new_saga fresh now instance_id process_key variables = record {
  id = fresh;
  instance_id = instance_id;
  process_key = process_key;
  status = SagaStatus.pending;
  steps = [];
  current_step_index = negsuc 0;
  variables = variables;
  error = none;
  created_at = now;
  updated_at = now;
  completed_at = none;
}

-- The arguments of `AddStep`.
pub record StepSpec : Type 0 where
  pub node_id : String
  pub node_name : String
  pub compensate_node_id : String
  pub compensate_node_name : String
  pub input_variables : Variables

unfoldable pub new_step : String → StepSpec → SagaStep
new_step fresh a = record {
  id = fresh;
  node_id = a.node_id;
  node_name = a.node_name;
  status = SagaStepStatus.pending;
  compensate_node_id = a.compensate_node_id;
  compensate_node_name = a.compensate_node_name;
  input_variables = a.input_variables;
  output_variables = [];
  compensate_input_variables = [];
  error = none;
  executed_at = none;
  compensated_at = none;
}

-- `AddStep` of a saga.
unfoldable pub append_step : String → StepSpec → Saga → Saga
unfolding new_step
append_step fresh a s = record s { steps = s.steps ++ new_step fresh a ∷ [] }

abbrev pub is_pending : SagaStep → Bool
is_pending step = elim step.status [ SagaStepStatus.pending ↦ true | _ ↦ false ]

abbrev pub is_completed : SagaStep → Bool
is_completed step = elim step.status [ SagaStepStatus.completed ↦ true | _ ↦ false ]

abbrev pub is_failed : SagaStep → Bool
is_failed step = elim step.status [ SagaStepStatus.failed ↦ true | _ ↦ false ]

-- The loop of `GetCompletedSteps`, from the index below `n` down to 0.
completed_below : List SagaStep → ℕ → List SagaStep
completed_below steps zero = []
completed_below steps (suc i) =
    let rest = completed_below steps i in
    elim (get_elem? steps i) [
      | none ↦ rest
      | some step ↦ if is_completed step then step ∷ rest else rest
    ]

-- `GetCompletedSteps`: the last step first.
unfoldable pub get_completed_steps : Saga → List SagaStep
unfolding completed_below
get_completed_steps s = completed_below s.steps (length s.steps)

-- `GetPendingSteps`: from the index behind the current one. `none` is the panic at an index
-- below 0, which only a current index below -1 leads to.
unfoldable pub get_pending_steps : Saga → Option (List SagaStep)
get_pending_steps s = elim s.current_step_index [
  | pos n ↦ some (select is_pending (drop (suc n) s.steps))
  | negsuc n ↦ elim n [ zero ↦ some (select is_pending s.steps) | suc _ ↦ none ]
]

unfoldable pub has_compensation : Saga → Bool
has_compensation s =
    exists (λ step. not (step.compensate_node_id == "") && is_completed step) s.steps

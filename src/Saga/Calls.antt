-- ===== src/Saga/Calls.antt =====
-- What the saga orchestrator works with: engine/internal/core/saga/orchestrator.go. A method
-- returns the saga as it leaves it, its error, and the calls made so far. The executor, the
-- compensation handler and the repository are interface values: each answers a call in view of all
-- calls made before it. Logging is left out.
use proctssor.Prelude.{ℤ, String, List, [], ◌∷◌, ◌++◌, Option, none, some, Result}
use mathlib.Core.Option
use proctssor.Token.{Variables}
use proctssor.Execution.{ExecutionResult}
use proctssor.Bpmn.Process.{FlowElement}
use proctssor.Bpmn.Graph.{Graph}
use proctssor.Saga.Model.{Saga}

-- A call that leaves the orchestrator. The node made for a compensation carries only an
-- identifier and a name.
pub data Call : Type 0 where
  executed : FlowElement → Variables → Call
  compensated : String → String → Variables → Call
  saved updated : Saga → Call
  deleted : String → Call

abbrev pub Trace : Type 0
Trace = List Call

-- `SagaRepository`, as far as the orchestrator writes through it. `some message` is an error.
pub record Repository : Type 0 where
  pub save : Trace → Saga → Option String
  pub update : Trace → Saga → Option String
  pub delete : Trace → String → Option String
  pub get : Trace → String → Result String Saga
  pub get_by_instance_id : Trace → String → Result String Saga

-- A handler or a repository that is nil is `none`.
pub record SagaOrchestrator : Type 0 where
  pub executor : Trace → Graph → FlowElement → Variables → Result String ExecutionResult
  pub compensation_handler :
      Option (Trace → String → String → Variables → Result String ExecutionResult)
  pub saga_repository : Option Repository

pub data SagaFault : Type 0 where
  invalid_step_index : ℤ → SagaFault
  node_not_found : String → SagaFault
  execution_failed : String → SagaFault
  not_saved not_updated not_completed : String → SagaFault
  repository_missing : SagaFault
  repository_failed : String → SagaFault

abbrev pub Outcome : Type 0
Outcome = Saga × Option SagaFault × Trace

-- `if o.sagaRepository != nil { if err := Update(saga) … }`.
unfoldable pub persist : SagaOrchestrator → Trace → Saga → (String → SagaFault) → Outcome
persist o trace s fault = elim o.saga_repository [
  | none ↦ (s, none, trace)
  | some r ↦ (s, Option.map fault (r.update trace s), trace ++ updated s ∷ [])
]

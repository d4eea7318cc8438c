-- ===== src/Saga/Orchestrator.antt =====
-- The short methods of the orchestrator: engine/internal/core/saga/orchestrator.go.
use proctssor.Prelude.{ℕ, String, [], ◌∷◌, ◌++◌, Option, none, some, Result, ok, err}
use mathlib.Core.Option
use proctssor.Token.{Variables}
use proctssor.Saga.Model.{SagaStatus, SagaError, Saga, StepSpec, new_saga, append_step}
use proctssor.Saga.Calls.{
  saved, deleted, Trace, SagaOrchestrator, SagaFault, not_saved, not_updated, not_completed,
  repository_missing, repository_failed, Outcome, persist,
}

-- `StartSaga`: no saga is returned if it cannot be saved.
unfoldable pub start_saga :
    SagaOrchestrator
    → Trace
    → String
    → ℕ
    → String
    → String
    → Variables
    → Result SagaFault Saga × Trace
start_saga o trace fresh now instance_id process_key variables =
    let s = record (new_saga fresh now instance_id process_key variables) {
      status = SagaStatus.running;
    } in
    elim o.saga_repository [
      | none ↦ (ok s, trace)
      | some r ↦ (
        elim (r.save trace s) [ none ↦ ok s | some message ↦ err (not_saved message) ],
        trace ++ saved s ∷ [],
      )
    ]

-- `AddStep` of the orchestrator.
unfoldable pub add_step : SagaOrchestrator → Trace → String → ℕ → StepSpec → Saga → Outcome
add_step o trace fresh now a s =
    persist o trace (record (append_step fresh a s) { updated_at = now }) not_updated

-- `CompleteSaga`, `FailSaga` (whose own error of the repository is only logged), `DeleteSaga`.
unfoldable pub complete_saga : SagaOrchestrator → Trace → ℕ → Saga → Outcome
complete_saga o trace now s =
    persist o trace
      (record s { status = SagaStatus.completed; completed_at = some now; updated_at = now })
      not_completed

unfoldable pub fail_saga : SagaOrchestrator → Trace → ℕ → String → Saga → Saga × Trace
fail_saga o trace now message s =
    let e : SagaError = record { code = "SAGA_FAILED"; message = message; node_id = "" } in
    let (s', _, trace') =
      persist o trace (record s { status = SagaStatus.failed; error = some e; updated_at = now })
        not_updated in
    (s', trace')

unfoldable pub delete_saga : SagaOrchestrator → Trace → String → Option SagaFault × Trace
delete_saga o trace id = elim o.saga_repository [
  | none ↦ (some repository_missing, trace)
  | some r ↦ (Option.map repository_failed (r.delete trace id), trace ++ deleted id ∷ [])
]

-- `GetSaga` and `GetSagaByInstance`.
unfoldable pub get_saga : SagaOrchestrator → Trace → String → Result SagaFault Saga
get_saga o trace id = elim o.saga_repository [
  | none ↦ err repository_missing
  | some r ↦ elim (r.get trace id) [ ok s ↦ ok s | err message ↦ err (repository_failed message) ]
]

unfoldable pub get_saga_by_instance : SagaOrchestrator → Trace → String → Result SagaFault Saga
get_saga_by_instance o trace id = elim o.saga_repository [
  | none ↦ err repository_missing
  | some r ↦ elim (r.get_by_instance_id trace id) [
    | ok s ↦ ok s
    | err message ↦ err (repository_failed message)
  ]
]

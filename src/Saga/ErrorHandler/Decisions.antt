-- ===== src/Saga/ErrorHandler/Decisions.antt =====
-- When the handlers compensate: engine/internal/core/saga/error_handler.go.
use proctssor.Prelude.{
  String, ◌≡◌, true, if◌then◌else◌, is_some, exists, arith, Bool-cases, inl, inr,
}
use proctssor.Saga.Model.{Saga, is_failed, has_compensation}
use proctssor.Saga.Model.Completed.{has_compensation-completed, is_empty-get_completed_steps}
use proctssor.Saga.Calls.{Trace, SagaOrchestrator}
use proctssor.Saga.Compensate.{CompensationClock, compensate}
use proctssor.Saga.Compensate.Result.{compensate-result}
use proctssor.Saga.ErrorHandler.{
  Handled, should_compensate, handle_error, handle_error_with_result, is_failed_saga,
}

-- The second test of `shouldCompensate` never decides: a saga with compensation has completed
-- steps, so the answer is that of `HasCompensation`.
pub should_compensate_lem : (s : Saga) → should_compensate s ≡ has_compensation s
unfolding should_compensate
should_compensate_lem s = elim (Bool-cases (has_compensation s)) [
  | inr none_named ↦ rw none_named
  | inl named ↦ ground (arith, has_compensation-completed s named)
]

-- `HandleErrorWithResult` always reports an error. It compensates exactly where the saga has
-- compensation, and else leaves the saga alone and makes no call. It tells the process to
-- terminate, where it compensated, exactly if a step of the saga had failed, and else exactly if
-- the saga was already failed.
pub handle_error_with_result_lem :
    (render : Handled → String) (o : SagaOrchestrator) (trace : Trace) (clock : CompensationClock)
    (s : Saga) (error node_id : String)
    → let (s', result, trace') = handle_error_with_result render o trace clock s error node_id in
      let undone = compensate o trace clock s in
      (is_some result.error ≡ true)
      × (s' ≡ (if has_compensation s then undone.0 else s))
      × (trace' ≡ (if has_compensation s then undone.2 else trace))
      × (result.terminated
          ≡ (if has_compensation s then exists is_failed s.steps else is_failed_saga s.status))
unfolding handle_error_with_result handle_error
handle_error_with_result_lem render o trace clock s error node_id =
    elim (Bool-cases (has_compensation s)) [
      | inr none_named ↦ ground (arith, should_compensate_lem s)
      | inl named ↦ ground (
        arith,
        should_compensate_lem s,
        compensate-result o trace clock s,
        has_compensation-completed s named,
        is_empty-get_completed_steps s,
      )
    ]

-- ===== src/Saga/Lifecycle/Runs.antt =====
-- Sagas from their start, through any calls of the orchestrator of
-- engine/internal/core/saga/orchestrator.go.
use proctssor.Prelude.{
  ℕ, zero, suc, ℤ, pos, negsuc, String, ◌≡◌, refl, true, List, [], ◌∷◌, is_some, length,
  length-append, All-append, ok, arith,
}
use proctssor.Token.{Variables}
use proctssor.Bpmn.Graph.{Graph}
use proctssor.Saga.Model.{
  SagaStatus, Saga, StepSpec, new_saga, new_step, append_step, get_pending_steps,
}
use proctssor.Saga.Calls.{Trace, SagaOrchestrator, not_updated, not_completed}
use proctssor.Saga.Compensate.{CompensationClock, compensate}
use proctssor.Saga.Compensate.Result.{persist-saga}
use proctssor.Saga.Execute.{StepClock, execute_step}
use proctssor.Saga.Orchestrator.{start_saga, add_step, complete_saga, fail_saga}
use proctssor.Saga.Lifecycle.{
  IsSound, IsIndex, IsIndex-grow, IsWellFormed, compensate-IsWellFormed, execute_step-IsWellFormed,
}

-- The methods that change a saga, with what each call brings.
pub data SagaOp : Type 0 where
  add : String → ℕ → StepSpec → SagaOp
  execute : StepClock → Graph → ℤ → SagaOp
  undo : CompensationClock → SagaOp
  finish : ℕ → SagaOp
  break : ℕ → String → SagaOp

-- Only the saga is followed: the calls before each method are given with it, so that the
-- executor, the handler and the repository may answer as they like.
unfoldable pub apply : SagaOrchestrator → Trace → Saga → SagaOp → Saga
apply o trace s (add fresh now a) = (add_step o trace fresh now a s).0
apply o trace s (execute clock graph i) = (execute_step o trace clock graph s i).0
apply o trace s (undo clock) = (compensate o trace clock s).0
apply o trace s (finish now) = (complete_saga o trace now s).0
apply o trace s (break now message) = (fail_saga o trace now message s).0

unfoldable pub run : SagaOrchestrator → Saga → List (Trace × SagaOp) → Saga
run o s [] = s
run o s ((trace, op) ∷ ops) = run o (apply o trace s op) ops

apply-IsWellFormed :
    (o : SagaOrchestrator) (trace : Trace) (s : Saga) (op : SagaOp)
    → IsWellFormed s
    → IsWellFormed (apply o trace s op)
unfolding apply add_step append_step new_step complete_saga fail_saga
apply-IsWellFormed o trace s (add fresh now a) h = rw (persist-saga o trace _ not_updated) (record {
  index =
      IsIndex-grow s.current_step_index (length s.steps) _
        (omega (arith, length-append s.steps (new_step fresh a ∷ []))) h.index;
  steps = All-append IsSound s.steps _ h.steps (ground arith, tt);
  ended = h.ended;
})
apply-IsWellFormed o trace s (execute clock graph i) h =
    execute_step-IsWellFormed o trace clock graph s i h
apply-IsWellFormed o trace s (undo clock) h = compensate-IsWellFormed o trace clock s h
apply-IsWellFormed o trace s (finish now) h =
    rw (persist-saga o trace _ not_completed)
      (record { index = h.index; steps = h.steps; ended = λ e. refl })
apply-IsWellFormed o trace s (break now message) h =
    rw (persist-saga o trace _ not_updated)
      (record { index = h.index; steps = h.steps; ended = λ e. cc })

run_keeps :
    (o : SagaOrchestrator) (s : Saga) (ops : List (Trace × SagaOp))
    → IsWellFormed s
    → IsWellFormed (run o s ops)
unfolding run
run_keeps o s [] h = h
run_keeps o s ((trace, op) ∷ ops) h =
    run_keeps o (apply o trace s op) ops (apply-IsWellFormed o trace s op h)

start_saga-started :
    (o : SagaOrchestrator) (trace : Trace) (fresh : String) (now : ℕ)
    (instance_id process_key : String) (variables : Variables) (s : Saga)
    → (start_saga o trace fresh now instance_id process_key variables).0 ≡ ok s
    → s ≡ record (new_saga fresh now instance_id process_key variables) {
      status = SagaStatus.running;
    }
unfolding start_saga
start_saga-started o trace fresh now instance_id process_key variables s started = ground arith

-- A saga that `StartSaga` returned is well formed after any calls: the current index is -1 or
-- that of a step, a completed step has the time of its execution, a compensated one also that of
-- its compensation, a failed one an error, and a completed saga the time of its end.
pub run-IsWellFormed :
    (o : SagaOrchestrator) (trace : Trace) (fresh : String) (now : ℕ)
    (instance_id process_key : String) (variables : Variables) (s : Saga)
    (ops : List (Trace × SagaOp))
    → (start_saga o trace fresh now instance_id process_key variables).0 ≡ ok s
    → IsWellFormed (run o s ops)
unfolding new_saga
run-IsWellFormed o trace fresh now instance_id process_key variables s ops started =
    let e = start_saga-started o trace fresh now instance_id process_key variables s started in
    run_keeps o s ops (rw e (record { index = tt; steps = tt; ended = λ e. cc }))

pending_at :
    (s : Saga) (i : ℤ)
    → s.current_step_index ≡ i
    → IsIndex i (length s.steps)
    → is_some (get_pending_steps s) ≡ true
unfolding get_pending_steps
pending_at s (pos n) e h = rw (e, get_pending_steps)
pending_at s (negsuc zero) e h = rw (e, get_pending_steps)
pending_at s (negsuc (suc n)) e h = absurd h

-- On a well-formed saga `GetPendingSteps` does not panic.
pub get_pending_steps_total : (s : Saga) → IsWellFormed s → is_some (get_pending_steps s) ≡ true
get_pending_steps_total s h = pending_at s s.current_step_index refl h.index

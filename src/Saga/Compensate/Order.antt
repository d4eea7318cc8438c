-- ===== src/Saga/Compensate/Order.antt =====
-- The calls that a compensation makes, and their order:
-- engine/internal/core/saga/orchestrator.go.
use mathlib.Core.List.{append_assoc, append-nil}
use proctssor.Prelude.{
  ℕ, ◌+◌, String, ◌==◌, ◌≡◌, refl, ◌∙◌, ap, Bool, true, false, not, ◌&&◌, List, [], ◌∷◌, ◌++◌, map,
  reverse, none, if◌then◌else◌, is_some, select, arith, Bool-cases, inl, inr, exists,
}
use proctssor.Saga.Model.{SagaStatus, SagaStep, Saga, is_completed}
use proctssor.Saga.Model.Completed.{
  select_nothing, get_completed_steps_lem, is_empty-get_completed_steps,
}
use proctssor.Saga.Calls.{Call, Trace, SagaOrchestrator, updated, persist, SagaFault}
use proctssor.Saga.Compensate.{
  CompensationClock, compensate_step, compensate_steps, roll_back, compensate,
}

-- The call that asks for the compensation of a step.
abbrev pub request : SagaStep → Call
request step =
    Call.compensated step.compensate_node_id step.compensate_node_name
      step.compensate_input_variables

abbrev pub has_node : SagaStep → Bool
has_node step = not (step.compensate_node_id == "")

-- The calls that the loop makes: none without a handler, and else one for each step that names a
-- compensation node.
abbrev requests : SagaOrchestrator → List SagaStep → List Call
requests o steps =
    if is_some o.compensation_handler then map request (select has_node steps) else []

compensate_step-calls :
    (o : SagaOrchestrator) (trace : Trace) (now : ℕ) (step : SagaStep)
    → (compensate_step o trace now step).2
      ≡ trace ++ (if is_some o.compensation_handler then request step ∷ [] else [])
unfolding compensate_step
compensate_step-calls o trace now step = ground (arith, append-nil trace)

compensate_steps-calls :
    (o : SagaOrchestrator) (trace : Trace) (now : ℕ → ℕ) (i : ℕ) (steps : List SagaStep)
    → compensate_steps o trace now i steps ≡ trace ++ requests o steps
unfolding compensate_steps
compensate_steps-calls o trace now i [] = ground (arith, append-nil trace)
compensate_steps-calls o trace now i (step ∷ steps) =
    elim (Bool-cases (step.compensate_node_id == "")) [
      | inl unnamed ↦ rw unnamed (compensate_steps-calls o trace now (i + 1) steps)
      | inr named ↦
          rw
            (
              named,
              compensate_steps-calls o (compensate_step o trace (now i) step).2 now (i + 1) steps,
            )
            (ground (
              arith,
              compensate_step-calls o trace (now i) step,
              append_assoc trace (request step ∷ []) (map request (select has_node steps)),
              append-nil trace,
            ))
    ]

pub persist-calls :
    (o : SagaOrchestrator) (trace : Trace) (s : Saga) (fault : String → SagaFault)
    → (persist o trace s fault).2
      ≡ trace
        ++ (if is_some o.saga_repository then updated (persist o trace s fault).0 ∷ [] else [])
unfolding persist
persist-calls o trace s fault = ground (arith, append-nil trace)

roll_back-calls :
    (o : SagaOrchestrator) (trace : Trace) (clock : CompensationClock) (s : Saga)
    (done : List SagaStep)
    → let (s', _, trace') = roll_back o trace clock s done in
      trace'
      ≡ (trace ++ requests o done) ++ (if is_some o.saga_repository then updated s' ∷ [] else [])
unfolding roll_back
roll_back-calls o trace clock s done =
    persist-calls o (compensate_steps o trace clock.handled 0 done) _ _
    ∙ rw (compensate_steps-calls o trace clock.handled 0 done) refl

-- Without a completed step a compensation only sets the status.
pub compensate-idle :
    (o : SagaOrchestrator) (trace : Trace) (clock : CompensationClock) (s : Saga)
    → exists is_completed s.steps ≡ false
    → compensate o trace clock s ≡ (record s { status = SagaStatus.compensated }, none, trace)
unfolding compensate
compensate-idle o trace clock s h =
    rw (is_empty-get_completed_steps (record s { status = SagaStatus.compensating }), h)

pub compensate-busy :
    (o : SagaOrchestrator) (trace : Trace) (clock : CompensationClock) (s : Saga)
    → exists is_completed s.steps ≡ true
    → compensate o trace clock s
      ≡ roll_back o trace clock
          (record s { status = SagaStatus.compensating })
          (reverse (select is_completed s.steps))
unfolding compensate
compensate-busy o trace clock s h =
    let s' : Saga = record s { status = SagaStatus.compensating } in
    rw (is_empty-get_completed_steps s', h)
      (ap (roll_back o trace clock s') (get_completed_steps_lem s'))

-- With a handler, a compensation asks for the compensation of every completed step that names a
-- node for it, of the last step first, whatever the handler answers to the requests before; then
-- it stores the saga that it returns, if there is a repository and a step was completed. It makes
-- no other call.
pub compensate-calls :
    (o : SagaOrchestrator) (trace : Trace) (clock : CompensationClock) (s : Saga)
    → is_some o.compensation_handler ≡ true
    → let (s', _, trace') = compensate o trace clock s in
      let store = is_some o.saga_repository && exists is_completed s.steps in
      trace'
      ≡ (trace ++ map request (select has_node (reverse (select is_completed s.steps))))
        ++ (if store then updated s' ∷ [] else [])
compensate-calls o trace clock s h = elim (Bool-cases (exists is_completed s.steps)) [
  | inl busy ↦
      let s' : Saga = record s { status = SagaStatus.compensating } in
      let done = reverse (select is_completed s.steps) in
      rw (compensate-busy o trace clock s busy)
        (ground (arith, roll_back-calls o trace clock s' done))
  | inr idle ↦
      rw (compensate-idle o trace clock s idle, select_nothing s.steps idle)
        (ground (arith, append-nil trace))
]

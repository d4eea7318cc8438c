-- ===== src/Saga/ErrorHandler/Tasks.antt =====
-- What the failure of a service task undoes: engine/internal/core/saga/error_handler.go.
use proctssor.Prelude.{
  ℕ, String, ◌==◌, ◌≡◌, refl, ◌∙◌, ap, Bool, true, false, not, ◌&&◌, List, [], ◌∷◌, ◌++◌, map,
  reverse, if◌then◌else◌, is_some, exists, select, select-append, arith, Bool-cases, inl, inr,
}
use mathlib.Core.List.{append-nil}
use proctssor.Bpmn.Elements.{ServiceTask}
use proctssor.Bpmn.Process.{is_compensatable}
use proctssor.Saga.Model.{
  SagaStep, Saga, StepSpec, new_step, append_step, is_completed, has_compensation,
}
use proctssor.Saga.Calls.{Trace, SagaOrchestrator, updated, persist}
use proctssor.Saga.Compensate.{CompensationClock}
use proctssor.Saga.Compensate.Order.{request, has_node, compensate-calls}
use proctssor.Saga.Orchestrator.{add_step}
use proctssor.Saga.ErrorHandler.{Handled, handle_service_task_error}

add_step-steps :
    (o : SagaOrchestrator) (trace : Trace) (fresh : String) (now : ℕ) (a : StepSpec) (s : Saga)
    → (add_step o trace fresh now a s).0.steps ≡ s.steps ++ new_step fresh a ∷ []
unfolding add_step persist append_step
add_step-steps o trace fresh now a s = ground arith

-- A step that has just been added is not completed.
add_step-completed :
    (o : SagaOrchestrator) (trace : Trace) (fresh : String) (now : ℕ) (a : StepSpec) (s : Saga)
    → select is_completed (add_step o trace fresh now a s).0.steps ≡ select is_completed s.steps
unfolding new_step
add_step-completed o trace fresh now a s =
    ap (select is_completed) (add_step-steps o trace fresh now a s)
    ∙ select-append is_completed s.steps (new_step fresh a ∷ [])
    ∙ append-nil _

abbrev undoable : SagaStep → Bool
undoable step = not (step.compensate_node_id == "") && is_completed step

exists-pending :
    (fresh : String) (a : StepSpec) (steps : List SagaStep)
    → exists undoable (steps ++ new_step fresh a ∷ []) ≡ exists undoable steps
unfolding new_step
exists-pending fresh a [] = ground arith
exists-pending fresh a (step ∷ steps) = ground (arith, exists-pending fresh a steps)

undoable-completed :
    (steps : List SagaStep) → exists undoable steps ≡ true → exists is_completed steps ≡ true
undoable-completed [] h = h
undoable-completed (step ∷ steps) h = ground (arith, h, undoable-completed steps)

-- The saga that the failed task joins, where it can be compensated, and the calls of that.
abbrev pub joined : SagaOrchestrator → Trace → String → ℕ → Saga → ServiceTask → Saga × Trace
joined o trace fresh now s node =
    let a : StepSpec = record {
      node_id = node.id;
      node_name = node.name;
      compensate_node_id = node.compensate_node_id;
      compensate_node_name = "";
      input_variables = [];
    } in
    let (s', _, trace') = add_step o trace fresh now a s in
    if is_compensatable node then (s', trace') else (s, trace)

joined-completed :
    (o : SagaOrchestrator) (trace : Trace) (fresh : String) (now : ℕ) (s : Saga)
    (node : ServiceTask)
    → (select is_completed (joined o trace fresh now s node).0.steps ≡ select is_completed s.steps)
      × (has_compensation (joined o trace fresh now s node).0 ≡ has_compensation s)
unfolding has_compensation
joined-completed o trace fresh now s node =
    let a : StepSpec = record {
      node_id = node.id;
      node_name = node.name;
      compensate_node_id = node.compensate_node_id;
      compensate_node_name = "";
      input_variables = [];
    } in
    let same =
      ap (exists undoable) (add_step-steps o trace fresh now a s)
      ∙ exists-pending fresh a s.steps in
    elim (Bool-cases (is_compensatable node)) [
      | inl can ↦ rw can (add_step-completed o trace fresh now a s, same)
      | inr cannot ↦ rw cannot (refl, refl)
    ]

-- `HandleServiceTaskError` always reports an error and never ends the process. With a handler for
-- compensations, it asks, after the calls that add the failed task to the saga, for the compensation
-- of exactly the steps that were completed before and name a node for it, of the last step first,
-- and then stores the saga, if there is a repository: the failed task itself is never compensated.
-- Where no completed step names a node, it makes no call but those that add the task.
pub handle_service_task_error_lem :
    (render : Handled → String) (o : SagaOrchestrator) (trace : Trace) (fresh : String) (now : ℕ)
    (clock : CompensationClock) (s : Saga) (node : ServiceTask) (error : String)
    → is_some o.compensation_handler ≡ true
    → let (s', result, trace') =
        handle_service_task_error render o trace fresh now clock s node error in
      let before = (joined o trace fresh now s node).1 in
      let undo = map request (select has_node (reverse (select is_completed s.steps))) in
      (is_some result.error ≡ true)
      × (result.terminated ≡ false)
      × (trace' ≡ (
          if has_compensation s
          then (before ++ undo) ++ (if is_some o.saga_repository then updated s' ∷ [] else [])
          else before))
unfolding handle_service_task_error
handle_service_task_error_lem render o trace fresh now clock s node error h =
    let (s1, trace1) = joined o trace fresh now s node in
    let (completed, same) = joined-completed o trace fresh now s node in
    elim (Bool-cases (has_compensation s)) [
      | inr none_named ↦ ground (arith, none_named, same)
      | inl named ↦
          let busy = undoable-completed s1.steps (unfold has_compensation in same ∙ named) in
          let undo_same = ap (λ l. map request (select has_node (reverse l))) completed in
          ground (arith, named, same, busy, undo_same, compensate-calls o trace1 clock s1 h)
    ]

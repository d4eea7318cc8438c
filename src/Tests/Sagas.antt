-- ===== src/Tests/Sagas.antt =====
-- The theorems on sagas, tried on an order whose payment is done and whose shipping fails.
use proctssor.Prelude.{◌≡◌, refl, pos, List, [], ◌∷◌, none, some, ok, err}
use proctssor.Bpmn.Graph.Queries.{get_element_by_id}
use proctssor.Bpmn.Graph.Nodes.{build_graph-lookup}
use proctssor.Saga.Model.{Saga, new_saga, SagaStatus, SagaStepStatus}
use proctssor.Bpmn.Process.{get_id}
use proctssor.Saga.Orchestrator.{start_saga}
use proctssor.Saga.Calls.{compensated, Trace, execution_failed}
use proctssor.Saga.Compensate.{compensate}
use proctssor.Saga.Compensate.Order.{compensate-calls}
use proctssor.Saga.Compensate.Result.{statuses, compensate-result}
use proctssor.Saga.Execute.{fail_step, execute_step}
use proctssor.Saga.Execute.Failure.{execute_step-failure}
use proctssor.Saga.Lifecycle.{IsWellFormed}
use proctssor.Saga.Lifecycle.Runs.{SagaOp, finish, add, execute, undo, run, run-IsWellFormed}
use proctssor.Tests.Samples.{order, graph, ship, stubborn, bare, clock, step_clock, step, underway}

ship_known : get_element_by_id graph "ship" ≡ some ship
unfolding get_id
ship_known = build_graph-lookup order "ship"

lost_unknown : get_element_by_id graph "lost" ≡ none
unfolding get_id
lost_unknown = build_graph-lookup order "lost"

ship_refused :
    stubborn.executor [] graph ship (step "ship" "" SagaStepStatus.pending).input_variables
    ≡ err "out of stock"
unfolding get_id
ship_refused = refl

execute_step-failure_example :
    let (s, fault, _) = execute_step stubborn [] step_clock graph underway (pos 2) in
    (fault ≡ some (execution_failed "out of stock"))
    × (statuses s
        ≡ SagaStepStatus.compensated ∷ SagaStepStatus.compensated ∷ SagaStepStatus.failed
          ∷ SagaStepStatus.pending ∷ [])
    × (s.status ≡ SagaStatus.failed)
unfolding fail_step
execute_step-failure_example =
    execute_step-failure stubborn [] step_clock graph underway 2
      (step "ship" "" SagaStepStatus.pending) ship "out of stock" refl ship_known ship_refused

compensate-calls_example :
    (compensate stubborn [] clock underway).2 ≡ compensated "refund" "refund" [] ∷ []
compensate-calls_example = compensate-calls stubborn [] clock underway refl

compensate-result_example :
    let s = (compensate stubborn [] clock underway).0 in
    (statuses s
      ≡ SagaStepStatus.compensated ∷ SagaStepStatus.compensated ∷ SagaStepStatus.pending
        ∷ SagaStepStatus.pending ∷ [])
    × (s.status ≡ SagaStatus.compensated)
compensate-result_example = compensate-result stubborn [] clock underway

abbrev ops : List (Trace × SagaOp)
ops =
    (
      [],
      add "1" 2 (record {
        node_id = "pay";
        node_name = "pay";
        compensate_node_id = "refund";
        compensate_node_name = "refund";
        input_variables = [];
      }),
    )
    ∷ ([], execute step_clock graph (pos 0))
    ∷ ([], undo clock)
    ∷ ([], finish 60)
    ∷ []

begun : Saga
unfolding new_saga
begun = record (new_saga "s" 1 "i" "order" []) { status = SagaStatus.running }

begun_started : (start_saga bare [] "s" 1 "i" "order" []).0 ≡ ok begun
unfolding start_saga begun
begun_started = refl

run-IsWellFormed_example : IsWellFormed (run bare begun ops)
run-IsWellFormed_example = run-IsWellFormed bare [] "s" 1 "i" "order" [] begun ops begun_started

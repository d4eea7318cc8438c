-- ===== src/Instance/Walk/Response.antt =====
-- What `HandleServiceResponse` leads to: engine/internal/service/instance_service.go.
use proctssor.Prelude.{
  ℕ, suc, String, ◌≡◌, refl, Option, none, some, ok, Result-cases, arith, Option-cases, inl, inr,
}
use proctssor.Token.{Variables}
use proctssor.Bpmn.Process.{Process}
use proctssor.Bpmn.Graph.{build_graph}
use proctssor.Bpmn.Graph.Queries.{get_element_by_id}
use proctssor.Bpmn.Graph.Nodes.{node_named}
use proctssor.Executor.Node.{Executor}
use proctssor.Instance.Store.{ProcessInstanceStatus, World, Fault, get_instance_by_id}
use proctssor.Instance.Service.{update_instance_status}
use proctssor.Instance.Walk.{
  Surroundings, advance, walk, settle, execute_instance, Job, handle_service_response,
}

nowhere : (p : Process) → get_element_by_id (build_graph p) "" ≡ none
nowhere p = elim (Option-cases (get_element_by_id (build_graph p) "")) [
  | inl missing ↦ missing
  | inr (e, found) ↦ absurd ((node_named p "" e found).1 refl)
]

-- The walk of an accepted response begins where no node is.
accepted_start :
    (get_process_by_id : String → Option Process) (fault : ℕ → Fault) (id : String)
    (variables : Variables) (w w' : World) (job : Job)
    → handle_service_response get_process_by_id fault id variables w ≡ (ok job, w')
    → get_element_by_id job.graph job.start ≡ none
unfolding handle_service_response
accepted_start get_process_by_id fault id variables w w' job h =
    elim (Result-cases (get_instance_by_id (fault 0) id w)) [
      | inr (e, unread) ↦ ground (arith, h, unread)
      | inl (i, read) ↦ elim (Option-cases (get_process_by_id i.process_key)) [
        | inl gone ↦ ground (arith, h, read, gone)
        | inr (p, found) ↦ ground (arith, h, read, found, nowhere p)
      ]
    ]

-- After every response that `HandleServiceResponse` accepts, the walk that it starts stops in its
-- first round: it executes no node, sends nothing, and sets the instance to `error`.
pub response_stops :
    (get_process_by_id : String → Option Process) (fault : ℕ → Fault) (id : String)
    (variables : Variables) (w w' : World) (job : Job) (e : Executor) (s : Surroundings) (fuel : ℕ)
    → handle_service_response get_process_by_id fault id variables w ≡ (ok job, w')
    → execute_instance e s job.instance_id job.graph (suc fuel) job.start job.variables w'
      ≡ some (update_instance_status s.fault job.instance_id ProcessInstanceStatus.error w')
unfolding execute_instance walk advance settle
response_stops get_process_by_id fault id variables w w' job e s fuel h =
    ground (arith, accepted_start get_process_by_id fault id variables w w' job h)

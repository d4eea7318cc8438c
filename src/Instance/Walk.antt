-- ===== src/Instance/Walk.antt =====
-- `executeInstance`, and the methods that start it: engine/internal/service/instance_service.go.
-- The loop runs on fuel: `none` is a walk that has not ended. `StartInstance` and
-- `HandleServiceResponse` start it in a goroutine; here they give the world that they leave and
-- where the walk begins, so that other methods may come between.
pub mod Loop
pub mod Totality
pub mod Response
use proctssor.Prelude.{
  ℕ, zero, suc, String, ◌==◌, Bool, not, [], lookup, merge, Option, none, some, Result, ok, err,
  if◌then◌else◌,
}
use proctssor.Token.{Variables}
use proctssor.Execution.{ExecutionResult}
use proctssor.Bpmn.Process.{FlowElement, Process}
use proctssor.Bpmn.Graph.{Graph, build_graph}
use proctssor.Bpmn.Graph.Queries.{get_element_by_id, get_start_node}
use proctssor.Executor.Publisher.{Sent}
use proctssor.Executor.Node.{Executor, Context, ExecutorError, execute_node}
use proctssor.Instance.Store.{
  running, ProcessInstanceStatus, ProcessInstance, Broadcast, instance_started, waiting_at,
  service_response, World, InstanceError, Fault, create_instance, get_instance_by_id,
  update_instance, broadcast,
}
use proctssor.Instance.Service.{
  ServiceError, not_read, not_written, not_running, process_not_found, no_start_node, is_running,
  update_instance_status, complete_instance,
}

-- What surrounds a walk: the identifiers and times of its k-th node, and the answers of the
-- database and the time for its end.
pub record Surroundings : Type 0 where
  pub fresh : ℕ → ℕ → String
  pub now : ℕ → ℕ → ℕ
  pub fault : ℕ → Fault
  pub ended_at : ℕ

-- Where a walk stands: the identifier of its node, its variables, the commands it has sent.
pub record Position : Type 0 where
  pub node_id : String
  pub variables : Variables
  pub sent : Sent

-- How a walk ends.
pub data Ending : Type 0 where
  missing_node : Ending
  broken : ExecutorError → Ending
  parked : String → Ending
  finished : Ending

-- One round of the loop: the next position, or the ending; only the instance is in the context.
unfoldable pub advance :
    Executor → (ℕ → String) → (ℕ → ℕ) → String → Graph → Position → Option Ending × Position
advance e fresh now id g at = elim (get_element_by_id g at.node_id) [
  | none ↦ (some missing_node, at)
  | some node ↦
      let ctx : Context = record {
        instance_id = some id;
        node_id = none;
        fresh = fresh;
        now = now;
      } in
      let (result, sent') = execute_node e ctx at.sent g node at.variables in
      elim result [
        | err fault ↦ (some (broken fault), record at { sent = sent' })
        | ok r ↦
            let at' : Position = record at { variables = r.variables; sent = sent' } in
            if r.await
            then (some (parked r.await_type), at')
            else if r.next_node_id == ""
            then (some finished, at')
            else (none, record at' { node_id = r.next_node_id })
      ]
]

-- What a round that ends does to the instance.
unfoldable pub settle : Surroundings → String → Position → Ending → World → World
settle s id at missing_node w = update_instance_status s.fault id ProcessInstanceStatus.error w
settle s id at (broken _) w = update_instance_status s.fault id ProcessInstanceStatus.error w
settle s id at (parked kind) w =
    broadcast id (waiting_at at.node_id kind)
      (update_instance_status s.fault id ProcessInstanceStatus.waiting w)
settle s id at finished w = complete_instance s.fault s.ended_at id at.variables w

-- The rounds, of which the k-th is the next.
unfoldable pub walk :
    Executor → Surroundings → String → Graph → ℕ → ℕ → Position → Option (Ending × Position)
walk e s id g k zero at = none
walk e s id g k (suc fuel) at =
    let (ending, at') = advance e (s.fresh k) (s.now k) id g at in
    let rest = walk e s id g (suc k) fuel at' in
    elim ending [ none ↦ rest | some how ↦ some (how, at') ]

-- `executeInstance`. The world matters to the rounds only through the commands sent.
unfoldable pub execute_instance :
    Executor → Surroundings → String → Graph → ℕ → String → Variables → World → Option World
execute_instance e s id g fuel start variables w =
    elim (walk e s id g 0 fuel (record { node_id = start; variables = variables; sent = w.sent })) [
      | none ↦ none
      | some (how, at) ↦ some (settle s id at how (record w { sent = at.sent }))
    ]

-- What is left to do in the goroutine.
pub record Job : Type 0 where
  pub instance_id : String
  pub graph : Graph
  pub start : String
  pub variables : Variables

-- `StartInstance`; `get_process_by_key` answers for the repository of processes. The business key
-- and the user are not read.
unfoldable pub start_instance :
    (String → Option Process)
    → Fault
    → String
    → ℕ
    → String
    → Variables
    → World
    → Result ServiceError (ProcessInstance × Job) × World
start_instance get_process_by_key fault fresh now process_id variables w =
    elim (get_process_by_key process_id) [
      | none ↦ (err (process_not_found process_id), w)
      | some p ↦
          let g = build_graph p in
          elim (get_start_node g) [
            | err _ ↦ (err no_start_node, w)
            | ok start ↦
                let i : ProcessInstance = record {
                  id = fresh;
                  process_key = process_id;
                  status = running;
                  variables = variables;
                  created_at = none;
                  started_at = some now;
                  completed_at = none;
                  completed_by = "";
                } in
                let (failed, w') = create_instance fault i w in
                elim failed [
                  | some e ↦ (err (not_written e), w')
                  | none ↦
                      let job : Job = record {
                        instance_id = fresh;
                        graph = g;
                        start = start.id;
                        variables = variables;
                      } in
                      (ok (i, job), broadcast fresh (instance_started start.id) w')
                ]
          ]
    ]

-- `HandleServiceResponse`; the walk goes on at the empty identifier.
unfoldable pub handle_service_response :
    (String → Option Process)
    → (ℕ → Fault)
    → String
    → Variables
    → World
    → Result ServiceError Job × World
handle_service_response get_process_by_id fault id variables w =
    elim (get_instance_by_id (fault 0) id w) [
      | err e ↦ (err (not_read e), w)
      | ok i ↦
          let merged = merge (merge [] i.variables) variables in
          let taken : Result ServiceError Job × World = elim (get_process_by_id i.process_key) [
            | none ↦ (err (process_not_found i.process_key), w)
            | some p ↦
                let (failed, w') = update_instance (fault 1) (record i { variables = merged }) w in
                elim failed [
                  | some e ↦ (err (not_written e), w')
                  | none ↦
                      let job : Job = record {
                        instance_id = i.id;
                        graph = build_graph p;
                        start = "";
                        variables = merged;
                      } in
                      (ok job, broadcast i.id (service_response variables) w')
                ]
          ] in
          if not (is_running i.status) then (err not_running, w) else taken
    ]

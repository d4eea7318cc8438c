-- ===== src/Tests/Instances.antt =====
-- The theorems on instances, tried on a table with one running instance.
use proctssor.Prelude.{
  ℕ, String, ◌==◌, ◌≡◌, refl, [], ◌∷◌, true, Option, none, some, ok, lookup, if◌then◌else◌, is_some,
  arith, merge, insert,
}
use proctssor.Bpmn.Process.{Process, get_id, get_outgoing_flows}
use proctssor.Bpmn.Graph.{build_graph, at, append_at}
use proctssor.Bpmn.Graph.Queries.{get_element_by_id}
use proctssor.Bpmn.Graph.Nodes.{build_graph-lookup}
use proctssor.Executor.Node.{Executor}
use proctssor.Instance.Store.{
  running, suspended, completed, error, ProcessInstance, World, get_instance_by_id, update_instance,
}
use proctssor.Instance.Service.{resume_instance, not_suspended, update_instance_status}
use proctssor.Instance.Status.{suspend, resume, perform, IsRow, Performed, perform_lem}
use proctssor.Instance.Ending.{settle_lem}
use proctssor.Instance.Walk.{
  Surroundings, Position, finished, execute_instance, settle, Job, handle_service_response,
}
use proctssor.Instance.Walk.Response.{response_stops}
use proctssor.Instance.Walk.Totality.{IsRanked, execute_instance_total}
use proctssor.Tests.Samples.{order, graph, ship, tidy, receipt}

abbrev pub lone : Executor
lone = record { evaluate = λ v text. ok true; registry_cache = none; publisher = none }

abbrev calm : Surroundings
calm = record { fresh = λ k j. "f"; now = λ k j. 5; fault = λ k. none; ended_at = 9 }

abbrev pub instance_1 : ProcessInstance
instance_1 = record {
  id = "i";
  process_key = "order";
  status = running;
  variables = [];
  created_at = some 1;
  started_at = none;
  completed_at = none;
  completed_by = "";
}

abbrev pub world : World
world = record { instances = ("i", instance_1) ∷ []; broadcasts = []; sent = [] }

pub instance_1-IsRow : IsRow "i" instance_1 world
unfolding lookup
instance_1-IsRow = record { found = refl; own = refl; named = λ e. cc }

perform_lem_example :
    Performed suspend "i" instance_1 world (perform suspend (λ k. none) "i" world) (some suspended)
perform_lem_example =
    perform_lem suspend (λ k. none) "i" instance_1 world instance_1-IsRow (λ k. refl)

resume_refused : (perform resume (λ k. none) "i" world).0 ≡ some not_suspended
unfolding perform lookup resume_instance get_instance_by_id
resume_refused = refl

settle_lem_example :
    lookup "i"
      (settle calm "i"
        (record { node_id = "done"; variables = receipt; sent = [] })
        finished
        world).instances
    ≡ some (record instance_1 { status = completed; variables = receipt })
settle_lem_example =
    settle_lem calm "i" (record { node_id = "done"; variables = receipt; sent = [] }) finished
      instance_1 world instance_1-IsRow (λ k. refl)

abbrev at_ship : Position
at_ship = record { node_id = "ship"; variables = receipt; sent = [] }

ship_there : get_element_by_id graph "ship" ≡ some ship
unfolding get_id
ship_there = build_graph-lookup order "ship"

abbrev rank : String → ℕ
rank id = if id == "choice" then 1 else 0

tidy-IsRanked : IsRanked rank (build_graph tidy)
unfolding build_graph lookup insert at append_at get_id get_outgoing_flows
tidy-IsRanked = (tt, (tt, (tt, ((omega arith, (omega arith, tt)), (tt, (tt, tt))))))

execute_instance_total_example :
    is_some (execute_instance lone calm "i" (build_graph tidy) 2 "choice" receipt world) ≡ true
execute_instance_total_example =
    execute_instance_total lone calm "i" (build_graph tidy) rank 2 "choice" receipt world
      tidy-IsRanked (omega arith)

abbrev processes : String → Option Process
processes key = some order

abbrev job : Job
job = record {
  instance_id = "i";
  graph = graph;
  start = "";
  variables = merge (merge [] []) receipt;
}

abbrev answered : World
answered = (handle_service_response processes (λ k. none) "i" receipt world).1

response_taken :
    handle_service_response processes (λ k. none) "i" receipt world ≡ (ok job, answered)
unfolding handle_service_response lookup get_instance_by_id update_instance
response_taken = refl

response_stops_example :
    execute_instance lone calm "i" graph 1 "" job.variables answered
    ≡ some (update_instance_status calm.fault "i" error answered)
response_stops_example =
    response_stops processes (λ k. none) "i" receipt world answered job lone calm 0 response_taken

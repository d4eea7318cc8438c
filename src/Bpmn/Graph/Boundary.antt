-- ===== src/Bpmn/Graph/Boundary.antt =====
-- The boundary events of a built graph: two routes to the same events, the map that `BuildGraph`
-- keeps in engine/internal/core/bpmn/graph.go and the scans of parser.go.
use proctssor.Prelude.{
  String, ◌==◌, eq_iff, ◌≡◌, ◌≢◌, refl, sym, ◌∙◌, ap, List, [], ◌∷◌, ◌++◌, Option, none, some,
  is_some, select, insert, lookup, if◌then◌else◌, arith, All,
}
use proctssor.Bpmn.Graph.Nodes.{at-append_at}
use mathlib.Core.List.{append_assoc, append-nil}
use proctssor.Bpmn.Elements.{BoundaryEvent, SequenceFlow}
use proctssor.Bpmn.Process.{
  FlowElement, Process, get_id, process_boundary_events, process_timer_events, process_error_events,
}
use proctssor.Bpmn.Graph.{
  Graph, at, new_graph, categorize, add_element, add_elements, add_flow, add_flows, build_graph,
}
use proctssor.Bpmn.Graph.Queries.{
  get_boundary_events_for_activity, get_timer_boundary_events_for_activity,
  get_error_boundary_events_for_activity,
}

-- The boundary events that one element puts under an activity.
abbrev found_in : Option FlowElement → String → List BoundaryEvent
found_in (some (FlowElement.boundary_event be)) activity =
    if be.attached_to_ref == activity then be ∷ [] else []
found_in _ activity = []

categorize-boundary :
    (activity : String) (elem : FlowElement) (g : Graph)
    → activity ≢ ""
    → at activity (categorize elem g).boundary_events_by_activity
      ≡ at activity g.boundary_events_by_activity ++ found_in (some elem) activity
unfolding build_graph
categorize-boundary activity (FlowElement.boundary_event be) g h = ground (
  arith,
  append-nil (at activity g.boundary_events_by_activity),
  at-append_at be.attached_to_ref activity be g.boundary_events_by_activity,
  eq_iff be.attached_to_ref activity,
  eq_iff be.attached_to_ref "",
)
categorize-boundary activity (FlowElement.service_task e) g h =
    ground (arith, append-nil (at activity g.boundary_events_by_activity))
categorize-boundary activity _ g h = sym (append-nil _)

-- The identifier is given; elements without one are left out of the graph.
abbrev pub IsNamed : Option FlowElement → Type 0
IsNamed none = Unit
IsNamed (some e) = get_id e ≢ ""

add_element-boundary :
    (activity : String) (elem : Option FlowElement) (g : Graph)
    → activity ≢ ""
    → IsNamed elem
    → at activity (add_element g elem).boundary_events_by_activity
      ≡ at activity g.boundary_events_by_activity ++ found_in elem activity
unfolding add_element
add_element-boundary activity none g h named = sym (append-nil _)
add_element-boundary activity (some e) g h named = ground (
  arith,
  eq_iff (get_id e) "",
  categorize-boundary activity e (record g { nodes = insert (get_id e) e g.nodes }),
)

IsFound-cons :
    (activity : String) (elem : Option FlowElement) (elems : List (Option FlowElement))
    → process_boundary_events (elem ∷ elems) activity
      ≡ found_in elem activity ++ process_boundary_events elems activity
unfolding process_boundary_events
IsFound-cons activity none elems = refl
IsFound-cons activity (some (FlowElement.boundary_event be)) elems = ground arith
IsFound-cons activity (some _) elems = refl

add_elements-boundary :
    (activity : String) (elems : List (Option FlowElement)) (g : Graph)
    → activity ≢ ""
    → All IsNamed elems
    → at activity (add_elements g elems).boundary_events_by_activity
      ≡ at activity g.boundary_events_by_activity ++ process_boundary_events elems activity
unfolding add_elements process_boundary_events
add_elements-boundary activity [] g h named = sym (append-nil _)
add_elements-boundary activity (elem ∷ elems) g h named =
    let before = at activity g.boundary_events_by_activity in
    let rest = process_boundary_events elems activity in
    add_elements-boundary activity elems (add_element g elem) h named.1
    ∙ ap (λ l. l ++ rest) (add_element-boundary activity elem g h named.0)
    ∙ append_assoc before (found_in elem activity) rest
    ∙ ap (λ l. before ++ l) (sym (IsFound-cons activity elem elems))

add_flows-boundary :
    (flows : List SequenceFlow) (g : Graph)
    → (add_flows g flows).boundary_events_by_activity ≡ g.boundary_events_by_activity
unfolding add_flows add_flow
add_flows-boundary [] g = refl
add_flows-boundary (flow ∷ flows) g =
    add_flows-boundary flows (add_flow g flow) ∙ unfold add_flow in ground arith

-- Where all elements of the process have an identifier, the graph keeps under each activity the
-- boundary events that a scan of the process finds for it, in the order of the process.
pub boundary_events-agree :
    (p : Process) (activity : String)
    → activity ≢ ""
    → All IsNamed p.flow_element
    → get_boundary_events_for_activity (build_graph p) activity
      ≡ process_boundary_events p.flow_element activity
unfolding build_graph get_boundary_events_for_activity at lookup
boundary_events-agree p activity h named =
    let g = add_elements new_graph p.flow_element in
    ap (at activity) (add_flows-boundary p.sequence_flow g)
    ∙ add_elements-boundary activity p.flow_element new_graph h named

timers-select :
    (elems : List (Option FlowElement)) (activity : String)
    → select (λ be. is_some be.timer_event_definition) (process_boundary_events elems activity)
      ≡ process_timer_events elems activity
unfolding process_boundary_events process_timer_events
timers-select [] activity = refl
timers-select (some (FlowElement.boundary_event be) ∷ elems) activity =
    ground (arith, timers-select elems activity)
timers-select (_ ∷ elems) activity = timers-select elems activity

errors-select :
    (elems : List (Option FlowElement)) (activity : String)
    → select (λ be. is_some be.error_event_definition) (process_boundary_events elems activity)
      ≡ process_error_events elems activity
unfolding process_boundary_events process_error_events
errors-select [] activity = refl
errors-select (some (FlowElement.boundary_event be) ∷ elems) activity =
    ground (arith, errors-select elems activity)
errors-select (_ ∷ elems) activity = errors-select elems activity

-- Where all elements of the process have an identifier, the graph also finds the same timer events
-- and the same error events for an activity as the scans of the process, in the same order.
pub defined_events-agree :
    (p : Process) (activity : String)
    → activity ≢ ""
    → All IsNamed p.flow_element
    → (get_timer_boundary_events_for_activity (build_graph p) activity
        ≡ process_timer_events p.flow_element activity)
      × (get_error_boundary_events_for_activity (build_graph p) activity
          ≡ process_error_events p.flow_element activity)
unfolding get_timer_boundary_events_for_activity get_error_boundary_events_for_activity
    get_boundary_events_for_activity
defined_events-agree p activity h named =
    let same = boundary_events-agree p activity h named in
    (
      ap (select (λ be. is_some be.timer_event_definition)) same
          ∙ timers-select p.flow_element activity,
      ap (select (λ be. is_some be.error_event_definition)) same
          ∙ errors-select p.flow_element activity,
    )

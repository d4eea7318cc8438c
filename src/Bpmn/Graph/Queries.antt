-- ===== src/Bpmn/Graph/Queries.antt =====
-- What the methods of `Graph` answer: engine/internal/core/bpmn/graph.go. The variables that
-- `FindNextNodes` takes are not read by it.
use proctssor.Prelude.{
  String, ◌==◌, Bool, List, [], ◌∷◌, map, lookup, Option, none, some, if◌then◌else◌, is_some,
  select, exists, Result, ok, err,
}
use proctssor.Bpmn.Elements.{StartEvent, BoundaryEvent, SequenceFlow}
use proctssor.Bpmn.Process.{FlowElement, is_interrupting}
use proctssor.Bpmn.Graph.{Graph, at}

unfoldable pub get_element_by_id : Graph → String → Option FlowElement
get_element_by_id g id = lookup id g.nodes

unfoldable pub get_outgoing_edges : Graph → String → List FlowElement
get_outgoing_edges g id = at id g.edges

pub data GraphError : Type 0 where
  element_not_found : String → GraphError
  no_start_event : GraphError

unfoldable pub get_start_node : Graph → Result GraphError StartEvent
get_start_node g = elim g.start_events [ [] ↦ err no_start_event | e ∷ es ↦ ok e ]

-- The flows out of a gateway whose target is a node, each with that node.
unfoldable pub candidates : Graph → String → List SequenceFlow → List (SequenceFlow × FlowElement)
candidates g id [] = []
candidates g id (flow ∷ flows) =
    let rest = candidates g id flows in
    if flow.source_ref == id
    then elim (lookup flow.target_ref g.nodes) [ none ↦ rest | some t ↦ (flow, t) ∷ rest ]
    else rest

-- The first candidate without a condition.
unfoldable pub first_default : List (SequenceFlow × FlowElement) → Option FlowElement
first_default [] = none
first_default ((flow, t) ∷ rest) =
    if is_some flow.condition_expression then first_default rest else some t

-- The first candidate without a condition, else the first candidate.
unfoldable pub choose : List (SequenceFlow × FlowElement) → List FlowElement
choose found = elim (first_default found) [
  | some t ↦ t ∷ []
  | none ↦ elim found [ [] ↦ [] | c ∷ _ ↦ c.1 ∷ [] ]
]

unfoldable pub evaluate_exclusive_gateway : Graph → String → List FlowElement
evaluate_exclusive_gateway g id = choose (candidates g id g.sequence_flows)

-- The elements of the candidates: all flows are taken.
unfoldable pub evaluate_inclusive_gateway : Graph → String → List FlowElement
evaluate_inclusive_gateway g id = map (λ c. c.1) (candidates g id g.sequence_flows)

-- The `switch` of `FindNextNodes`.
unfoldable pub next_of : Graph → String → FlowElement → List FlowElement
next_of g id (FlowElement.exclusive_gateway e) = evaluate_exclusive_gateway g id
next_of g id (FlowElement.inclusive_gateway e) = evaluate_inclusive_gateway g id
next_of g id _ = get_outgoing_edges g id

unfoldable pub find_next_nodes : Graph → String → Result GraphError (List FlowElement)
find_next_nodes g id = elim (get_element_by_id g id) [
  | none ↦ err (element_not_found id)
  | some current ↦ ok (next_of g id current)
]

-- `IsEndNode` and `IsStartNode`.
unfoldable pub is_end_node : Graph → String → Bool
is_end_node g id = exists (λ e. e.id == id) g.end_events

unfoldable pub is_start_node : Graph → String → Bool
is_start_node g id = exists (λ e. e.id == id) g.start_events

unfoldable pub get_boundary_events_for_activity : Graph → String → List BoundaryEvent
get_boundary_events_for_activity g id = at id g.boundary_events_by_activity

unfoldable pub get_timer_boundary_events_for_activity : Graph → String → List BoundaryEvent
get_timer_boundary_events_for_activity g id =
    select (λ be. is_some be.timer_event_definition) (at id g.boundary_events_by_activity)

unfoldable pub get_error_boundary_events_for_activity : Graph → String → List BoundaryEvent
get_error_boundary_events_for_activity g id =
    select (λ be. is_some be.error_event_definition) (at id g.boundary_events_by_activity)

unfoldable pub has_interrupting_boundary_event : Graph → String → Bool
has_interrupting_boundary_event g id = exists is_interrupting (at id g.boundary_events_by_activity)

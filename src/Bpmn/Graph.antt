-- ===== src/Bpmn/Graph.antt =====
-- The process graph: engine/internal/core/bpmn/graph.go. Go maps are association lists; where the
-- source ranges over one, the model takes the order in which the keys were added. `BuildGraph`
-- never returns an error, and its casts cannot fail, since the element's type was just read.
pub mod Queries
pub mod Nodes
pub mod Edges
pub mod Gateways
pub mod Boundary
use proctssor.Prelude.{
  String, ◌==◌, Bool, true, false, List, [], ◌∷◌, ◌++◌, Map, lookup, insert, Option, none, some,
  if◌then◌else◌,
}
use proctssor.Bpmn.Elements.{StartEvent, EndEvent, BoundaryEvent, SequenceFlow}
use proctssor.Bpmn.Process.{FlowElement, FlowElementType, Process, get_id, get_element_type}

pub record Graph : Type 0 where
  pub nodes : Map FlowElement
  pub edges : Map (List FlowElement)
  pub sequence_flows : List SequenceFlow
  pub start_events : List StartEvent
  pub end_events : List EndEvent
  pub gateways : List (FlowElementType × List FlowElement)
  pub tasks : List (FlowElementType × List FlowElement)
  pub boundary_events : List BoundaryEvent
  pub boundary_events_by_activity : Map (List BoundaryEvent)

unfoldable pub new_graph : Graph
new_graph = record {
  nodes = [];
  edges = [];
  sequence_flows = [];
  start_events = [];
  end_events = [];
  gateways = [];
  tasks = [];
  boundary_events = [];
  boundary_events_by_activity = [];
}

-- `m[k]` at a slice type: nil, an empty slice, where the key is missing.
unfoldable pub at {ℓ} : {A : Type ℓ} → String → Map (List A) → List A
at k m = elim (lookup k m) [ none ↦ [] | some l ↦ l ]

-- `m[k] = append(m[k], a)`.
unfoldable pub append_at {ℓ} : {A : Type ℓ} → String → A → Map (List A) → Map (List A)
append_at k a m = insert k (at k m ++ a ∷ []) m

-- The element types are numbered by `iota`; the categories are keyed by types that differ.
same_type : FlowElementType → FlowElementType → Bool
same_type FlowElementType.user_task FlowElementType.user_task = true
same_type FlowElementType.service_task FlowElementType.service_task = true
same_type FlowElementType.script_task FlowElementType.script_task = true
same_type FlowElementType.manual_task FlowElementType.manual_task = true
same_type FlowElementType.receive_task FlowElementType.receive_task = true
same_type FlowElementType.send_task FlowElementType.send_task = true
same_type FlowElementType.exclusive_gateway FlowElementType.exclusive_gateway = true
same_type FlowElementType.inclusive_gateway FlowElementType.inclusive_gateway = true
same_type FlowElementType.parallel_gateway FlowElementType.parallel_gateway = true
same_type FlowElementType.complex_gateway FlowElementType.complex_gateway = true
same_type FlowElementType.event_based_gateway FlowElementType.event_based_gateway = true
same_type _ _ = false

-- `m[t] = append(m[t], elem)` at a map from types to slices.
append_typed :
    FlowElementType
    → FlowElement
    → List (FlowElementType × List FlowElement)
    → List (FlowElementType × List FlowElement)
append_typed t elem [] = (t, elem ∷ []) ∷ []
append_typed t elem ((u, l) ∷ m) =
    if same_type u t then (u, l ++ elem ∷ []) ∷ m else (u, l) ∷ append_typed t elem m

add_gateway : FlowElement → Graph → Graph
add_gateway elem g = record g { gateways = append_typed (get_element_type elem) elem g.gateways }

add_task : FlowElement → Graph → Graph
add_task elem g = record g { tasks = append_typed (get_element_type elem) elem g.tasks }

add_boundary : BoundaryEvent → Graph → Graph
add_boundary be g =
    let events = g.boundary_events ++ be ∷ [] in
    if be.attached_to_ref == "" then record g { boundary_events = events } else record g {
      boundary_events = events;
      boundary_events_by_activity = append_at be.attached_to_ref be g.boundary_events_by_activity;
    }

-- The `switch` over `GetElementType`. A service task for compensation has the type of a
-- compensation event, and no category.
pub categorize : FlowElement → Graph → Graph
categorize (FlowElement.start_event e) g = record g { start_events = g.start_events ++ e ∷ [] }
categorize (FlowElement.end_event e) g = record g { end_events = g.end_events ++ e ∷ [] }
categorize (FlowElement.exclusive_gateway e) g = add_gateway (FlowElement.exclusive_gateway e) g
categorize (FlowElement.inclusive_gateway e) g = add_gateway (FlowElement.inclusive_gateway e) g
categorize (FlowElement.parallel_gateway e) g = add_gateway (FlowElement.parallel_gateway e) g
categorize (FlowElement.complex_gateway e) g = add_gateway (FlowElement.complex_gateway e) g
categorize (FlowElement.event_based_gateway e) g = add_gateway (FlowElement.event_based_gateway e) g
categorize (FlowElement.user_task e) g = add_task (FlowElement.user_task e) g
categorize (FlowElement.service_task e) g =
    if e.is_for_compensation then g else add_task (FlowElement.service_task e) g
categorize (FlowElement.script_task e) g = add_task (FlowElement.script_task e) g
categorize (FlowElement.manual_task e) g = add_task (FlowElement.manual_task e) g
categorize (FlowElement.receive_task e) g = add_task (FlowElement.receive_task e) g
categorize (FlowElement.send_task e) g = add_task (FlowElement.send_task e) g
categorize (FlowElement.boundary_event be) g = add_boundary be g
categorize _ g = g

-- One round of the first loop of `BuildGraph`.
pub add_element : Graph → Option FlowElement → Graph
add_element g none = g
add_element g (some elem) =
    if get_id elem == ""
    then g
    else categorize elem (record g { nodes = insert (get_id elem) elem g.nodes })

pub add_elements : Graph → List (Option FlowElement) → Graph
add_elements g [] = g
add_elements g (elem ∷ elems) = add_elements (add_element g elem) elems

-- One round of the second loop: a flow to a missing target is kept, and makes no edge.
pub add_flow : Graph → SequenceFlow → Graph
add_flow g flow =
    let g' = record g { sequence_flows = g.sequence_flows ++ flow ∷ [] } in
    elim (lookup flow.target_ref g.nodes) [
      | none ↦ g'
      | some target ↦ record g' { edges = append_at flow.source_ref target g.edges }
    ]

pub add_flows : Graph → List SequenceFlow → Graph
add_flows g [] = g
add_flows g (flow ∷ flows) = add_flows (add_flow g flow) flows

unfoldable pub build_graph : Process → Graph
unfolding new_graph add_elements add_element categorize add_gateway add_task add_boundary
    append_typed same_type append_at add_flows add_flow
build_graph p = add_flows (add_elements new_graph p.flow_element) p.sequence_flow

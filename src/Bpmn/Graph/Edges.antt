-- ===== src/Bpmn/Graph/Edges.antt =====
-- The edges of a built graph, and what `FindNextNodes` makes of them:
-- engine/internal/core/bpmn/graph.go.
use proctssor.Prelude.{
  String, ◌==◌, ◌≡◌, sym, ◌∙◌, ap, inl, inr, List, [], ◌∷◌, ◌++◌, lookup, insert, Option, none,
  some, if◌then◌else◌, arith, Option-cases,
}
use mathlib.Core.Path.{fun_ext}
use mathlib.Core.List.{append_assoc, append-nil}
use proctssor.Bpmn.Elements.{SequenceFlow}
use proctssor.Bpmn.Process.{FlowElement, Process, get_id}
use proctssor.Bpmn.Graph.{
  Graph, at, new_graph, add_element, add_elements, add_flow, add_flows, build_graph,
}
use proctssor.Bpmn.Graph.Queries.{get_outgoing_edges}
use proctssor.Bpmn.Graph.Nodes.{
  last_named, categorize-Keeps, add_flow-nodes, lookup-add_elements_new, at-append_at,
}

-- The targets of the flows out of an element, in the order of the flows, where a target is
-- looked up by `find` and left out if it is missing.
abbrev pub targets : (String → Option FlowElement) → String → List SequenceFlow → List FlowElement
targets find id [] = []
targets find id (flow ∷ flows) =
    let rest = targets find id flows in
    if flow.source_ref == id
    then elim (find flow.target_ref) [ none ↦ rest | some t ↦ t ∷ rest ]
    else rest

-- The elements of the process that the flows out of `id` lead to.
abbrev pub successors : Process → String → List FlowElement
successors p id = targets (λ k. last_named k p.flow_element) id p.sequence_flow

targets-cons :
    (find : String → Option FlowElement) (id : String) (flow : SequenceFlow)
    (flows : List SequenceFlow)
    → targets find id (flow ∷ flows) ≡ targets find id (flow ∷ []) ++ targets find id flows
targets-cons find id flow flows = ground arith

add_flow-edges :
    (id : String) (flow : SequenceFlow) (g : Graph)
    → at id (add_flow g flow).edges
      ≡ at id g.edges ++ targets (λ k. lookup k g.nodes) id (flow ∷ [])
unfolding add_flow
add_flow-edges id flow g = elim (Option-cases (lookup flow.target_ref g.nodes)) [
  | inl missing ↦ rw (missing) (ground (arith, append-nil (at id g.edges)))
  | inr (t, found) ↦
      rw (found)
        (ground (arith, append-nil (at id g.edges), at-append_at flow.source_ref id t g.edges))
]

at-add_flows :
    (id : String) (flows : List SequenceFlow) (g : Graph)
    → at id (add_flows g flows).edges ≡ at id g.edges ++ targets (λ k. lookup k g.nodes) id flows
unfolding add_flows
at-add_flows id [] g = sym (append-nil (at id g.edges))
at-add_flows id (flow ∷ flows) g =
    let find = λ (k : String). lookup k g.nodes in
    at-add_flows id flows (add_flow g flow)
    ∙ rw (add_flow-nodes flow g, add_flow-edges id flow g)
        (append_assoc (at id g.edges) (targets find id (flow ∷ [])) (targets find id flows)
          ∙ ap (λ l. at id g.edges ++ l) (sym (targets-cons find id flow flows)))

add_flow-sequence_flows :
    (flow : SequenceFlow) (g : Graph)
    → (add_flow g flow).sequence_flows ≡ g.sequence_flows ++ flow ∷ []
unfolding add_flow
add_flow-sequence_flows flow g = ground arith

add_flows-sequence_flows :
    (flows : List SequenceFlow) (g : Graph)
    → (add_flows g flows).sequence_flows ≡ g.sequence_flows ++ flows
unfolding add_flows
add_flows-sequence_flows [] g = sym (append-nil g.sequence_flows)
add_flows-sequence_flows (flow ∷ flows) g =
    add_flows-sequence_flows flows (add_flow g flow)
    ∙ rw (add_flow-sequence_flows flow g) (append_assoc g.sequence_flows (flow ∷ []) flows)

record Untouched (g h : Graph) : Type 0 where
  edges : h.edges ≡ g.edges
  flows : h.sequence_flows ≡ g.sequence_flows

add_elements-Untouched :
    (elems : List (Option FlowElement)) (g : Graph) → Untouched g (add_elements g elems)
unfolding add_elements add_element
add_elements-Untouched [] g = ground arith
add_elements-Untouched (none ∷ elems) g = add_elements-Untouched elems g
add_elements-Untouched (some elem ∷ elems) g = ground (
  arith,
  categorize-Keeps elem (record g { nodes = insert (get_id elem) elem g.nodes }),
  add_elements-Untouched elems (add_element g (some elem)),
)

-- The graph keeps every flow of the process, also those that make no edge.
pub build_graph-sequence_flows : (p : Process) → (build_graph p).sequence_flows ≡ p.sequence_flow
unfolding build_graph
build_graph-sequence_flows p =
    add_flows-sequence_flows p.sequence_flow (add_elements new_graph p.flow_element)
    ∙ ap (λ l. l ++ p.sequence_flow) (add_elements-Untouched p.flow_element new_graph).flows

-- `GetOutgoingEdges` on the graph of a process gives, in the order of the flows, the elements
-- that the flows out of the element lead to; a flow whose target is missing gives none.
pub build_graph-edges :
    (p : Process) (id : String) → get_outgoing_edges (build_graph p) id ≡ successors p id
unfolding build_graph get_outgoing_edges at lookup
build_graph-edges p id =
    let g = add_elements new_graph p.flow_element in
    at-add_flows id p.sequence_flow g
    ∙ rw ((add_elements-Untouched p.flow_element new_graph).edges) (
        ap (λ find. targets find id p.sequence_flow)
          (fun_ext (lookup-add_elements_new p.flow_element)))

-- ===== src/Bpmn/Graph/Gateways.antt =====
-- What `FindNextNodes` makes of the successors of an element: engine/internal/core/bpmn/graph.go.
use mathlib.Core.List.{Memᴰ}
use proctssor.Prelude.{
  String, ◌==◌, ◌≡◌, refl, sym, ◌∙◌, ap, ◌⊎◌, inl, inr, List, [], ◌∷◌, map, lookup, none, some,
  is_some, arith, Bool-cases, Option-cases, ok, err,
}
use mathlib.Core.Path.{fun_ext}
use mathlib.Core.Option.{some-injective, none-ne-some}
use proctssor.Bpmn.Elements.{SequenceFlow}
use proctssor.Bpmn.Process.{FlowElement, Process, get_id}
use proctssor.Bpmn.Graph.{Graph, build_graph}
use proctssor.Bpmn.Graph.Queries.{
  get_element_by_id, get_outgoing_edges, candidates, first_default, evaluate_exclusive_gateway,
  evaluate_inclusive_gateway, next_of, find_next_nodes,
}
use proctssor.Bpmn.Graph.Nodes.{last_named, build_graph-lookup}
use proctssor.Bpmn.Graph.Edges.{targets, successors, build_graph-sequence_flows, build_graph-edges}
use proctssor.Bpmn.Graph.Nodes.{node_named}
use proctssor.Bpmn.Graph.Queries.{choose}
use proctssor.Bpmn.Graph.Queries.{element_not_found}
use proctssor.Prelude.{subst, All}

candidates-targets :
    (g : Graph) (id : String) (flows : List SequenceFlow)
    → map (λ c. c.1) (candidates g id flows) ≡ targets (λ k. lookup k g.nodes) id flows
unfolding candidates
candidates-targets g id [] = refl
candidates-targets g id (flow ∷ flows) = elim (Option-cases (lookup flow.target_ref g.nodes)) [
  | inl missing ↦ rw missing (ground (arith, candidates-targets g id flows))
  | inr (t, found) ↦ rw found (ground (arith, candidates-targets g id flows))
]

candidates-successors :
    (p : Process) (id : String)
    → let g = build_graph p in map (λ c. c.1) (candidates g id g.sequence_flows) ≡ successors p id
unfolding get_element_by_id
candidates-successors p id =
    let g = build_graph p in
    candidates-targets g id g.sequence_flows
    ∙ rw (build_graph-sequence_flows p)
        (ap (λ find. targets find id p.sequence_flow) (fun_ext (build_graph-lookup p)))

-- An inclusive gateway takes all its flows: it has the successors that any other element has.
inclusive-successors :
    (p : Process) (id : String) → evaluate_inclusive_gateway (build_graph p) id ≡ successors p id
unfolding evaluate_inclusive_gateway
inclusive-successors p id = candidates-successors p id

-- What an exclusive gateway makes of its successors: nothing of none, and else one of them.
abbrev pub OneOf : List FlowElement → List FlowElement → Type 0
OneOf next all = ((next ≡ []) × (all ≡ [])) ⊎ ((t : FlowElement) × (next ≡ t ∷ []) × Memᴰ t all)

first_default-mem :
    (found : List (SequenceFlow × FlowElement)) (t : FlowElement)
    → first_default found ≡ some t
    → Memᴰ t (map (λ c. c.1) found)
unfolding first_default
first_default-mem [] t h = absurd (none-ne-some _ h)
first_default-mem ((flow, u) ∷ rest) t h = elim (Bool-cases (is_some flow.condition_expression)) [
  | inl conditional ↦ Memᴰ.tail (first_default-mem rest t (rw conditional at h))
  | inr plain ↦ Memᴰ.head (sym (some-injective _ _ (rw plain at h)))
]

choose-OneOf :
    (found : List (SequenceFlow × FlowElement)) → OneOf (choose found) (map (λ c. c.1) found)
unfolding choose
choose-OneOf [] = unfold first_default in inl (refl, refl)
choose-OneOf (c ∷ rest) = elim (Option-cases (first_default (c ∷ rest))) [
  | inl none_plain ↦ rw (none_plain, choose) (inr (c.1, refl, Memᴰ.head refl))
  | inr (t, plain) ↦ rw (plain, choose) (inr (t, refl, first_default-mem (c ∷ rest) t plain))
]

-- What the `switch` of `FindNextNodes` promises for an element and its successors.
abbrev pub Chosen : FlowElement → List FlowElement → List FlowElement → Type 0
Chosen (FlowElement.exclusive_gateway e) next all = OneOf next all
Chosen _ next all = next ≡ all

next_of-Chosen :
    (p : Process) (id : String) (e : FlowElement)
    → Chosen e (next_of (build_graph p) id e) (successors p id)
unfolding next_of evaluate_exclusive_gateway
next_of-Chosen p id (FlowElement.exclusive_gateway e) =
    subst (OneOf (evaluate_exclusive_gateway (build_graph p) id)) (candidates-successors p id)
      (choose-OneOf (candidates (build_graph p) id (build_graph p).sequence_flows))
next_of-Chosen p id (FlowElement.inclusive_gateway e) = inclusive-successors p id
next_of-Chosen p id _ = build_graph-edges p id

-- `FindNextNodes` fails exactly where the process has no element with the identifier. Otherwise
-- it gives all the successors of the element, but that an exclusive gateway takes exactly one of
-- them, and none only if there is none.
pub find_next_nodes_lem :
    (p : Process) (id : String)
    → ((last_named id p.flow_element ≡ none)
        × (find_next_nodes (build_graph p) id ≡ err (element_not_found id)))
      ⊎ ((e : FlowElement) × (next : List FlowElement) × (last_named id p.flow_element ≡ some e)
          × (find_next_nodes (build_graph p) id ≡ ok next)
          × Chosen e next (successors p id))
unfolding find_next_nodes
find_next_nodes_lem p id = elim (Option-cases (last_named id p.flow_element)) [
  | inl missing ↦ inl (missing, rw (build_graph-lookup p id ∙ missing, find_next_nodes))
  | inr (e, found) ↦ inr (
    e,
    next_of (build_graph p) id e,
    found,
    rw (build_graph-lookup p id ∙ found, find_next_nodes),
    next_of-Chosen p id e,
  )
]

-- An element that stands among the nodes under its own identifier.
abbrev pub IsNode : Graph → FlowElement → Type 0
IsNode g e = get_element_by_id g (get_id e) ≡ some e

targets-IsNode :
    (p : Process) (id : String) (flows : List SequenceFlow)
    → All (IsNode (build_graph p)) (targets (λ k. last_named k p.flow_element) id flows)
targets-IsNode p id [] = tt
targets-IsNode p id (flow ∷ flows) = elim (Bool-cases (flow.source_ref == id)) [
  | inr other ↦ rw other (targets-IsNode p id flows)
  | inl same ↦ elim (Option-cases (last_named flow.target_ref p.flow_element)) [
    | inl missing ↦ rw (same, missing) (targets-IsNode p id flows)
    | inr (t, found) ↦
        let here = build_graph-lookup p flow.target_ref ∙ found in
        rw (same, found)
          (rw ((node_named p flow.target_ref t here).0) here, targets-IsNode p id flows)
  ]
]

-- Every element that an edge leads to is itself a node, so a walk along the edges never meets an
-- identifier that the graph does not know.
pub edges-IsNode :
    (p : Process) (id : String) → let g = build_graph p in All (IsNode g) (get_outgoing_edges g id)
edges-IsNode p id = rw (build_graph-edges p id) (targets-IsNode p id p.sequence_flow)

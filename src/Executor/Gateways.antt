-- ===== src/Executor/Gateways.antt =====
-- The gateways of the executor, against those of the graph:
-- engine/internal/core/executor/executor.go and engine/internal/core/bpmn/graph.go.
use proctssor.Prelude.{
  String, ◌==◌, ◌≡◌, refl, sym, ◌∙◌, ap, true, inl, inr, List, [], ◌∷◌, map, Option, none, some,
  is_some, All, lookup, arith, Bool-cases, Option-cases, Result, ok, err,
}
use proctssor.Token.{Variables}
use proctssor.Execution.{ExecutionResult}
use proctssor.Bpmn.Elements.{SequenceFlow}
use proctssor.Bpmn.Process.{FlowElement, Process, get_id, get_outgoing_flows}
use proctssor.Bpmn.Graph.{Graph, build_graph}
use proctssor.Bpmn.Graph.Queries.{
  get_element_by_id, candidates, first_default, choose, evaluate_exclusive_gateway,
}
use proctssor.Bpmn.Graph.Nodes.{node_named}
use proctssor.Executor.Node.{
  ExecutorError, no_outgoing_flows, goes_to, is_conditional, default_flow, first_flow,
  execute_exclusive_gateway,
}

-- A flow whose target is a node, and whose condition, if it has one, has a text.
abbrev pub IsUsual : Graph → SequenceFlow → Type 0
IsUsual g flow =
    (is_some (get_element_by_id g flow.target_ref) ≡ true)
    × (is_conditional flow ≡ is_some flow.condition_expression)

-- The flow leads to the element, and the two tests for a condition agree.
abbrev Fits : SequenceFlow × FlowElement → Type 0
Fits c = (c.0.target_ref ≡ get_id c.1) × (is_conditional c.0 ≡ is_some c.0.condition_expression)

candidates-flows :
    (p : Process) (id : String) (flows : List SequenceFlow)
    → let g = build_graph p in
      All (IsUsual g) flows
      → (map (λ c. c.0) (candidates g id flows) ≡ get_outgoing_flows flows id)
        × All Fits (candidates g id flows)
unfolding candidates get_outgoing_flows get_element_by_id
candidates-flows p id [] h = (refl, tt)
candidates-flows p id (flow ∷ flows) h =
    let g = build_graph p in
    let rest = candidates-flows p id flows h.1 in
    elim (Option-cases (lookup flow.target_ref g.nodes)) [
      | inl missing ↦ ground (arith, h.0, missing)
      | inr (t, found) ↦ elim (Bool-cases (flow.source_ref == id)) [
        | inl same ↦
            let named = sym (node_named p flow.target_ref t found).0 in
            rw (found, same) (ap (λ l. flow ∷ l) rest.0, ((named, h.0.1), rest.1))
        | inr other ↦ rw (found, other) rest
      ]
    ]

-- Where a choice goes to.
abbrev target_of : Option SequenceFlow → Option String
target_of o = elim o [ none ↦ none | some flow ↦ some flow.target_ref ]

abbrev id_of : Option FlowElement → Option String
id_of o = elim o [ none ↦ none | some t ↦ some (get_id t) ]

same_default :
    (found : List (SequenceFlow × FlowElement))
    → All Fits found
    → target_of (default_flow (map (λ c. c.0) found)) ≡ id_of (first_default found)
unfolding default_flow first_default
same_default [] h = refl
same_default ((flow, t) ∷ found) h = ground (arith, h.0, same_default found h.1)

-- Where the chosen elements send the token.
abbrev pub towards : String → Variables → List FlowElement → Result ExecutorError ExecutionResult
towards id v [] = err (no_outgoing_flows id)
towards id v (t ∷ _) = ok (goes_to (get_id t) v)

-- Where the executor sends the token along the flows of a gateway.
abbrev route : String → Variables → List SequenceFlow → Result ExecutorError ExecutionResult
route id v flows = elim (default_flow flows) [
  | some flow ↦ ok (goes_to flow.target_ref v)
  | none ↦ first_flow id flows v
]

same_choice :
    (id : String) (v : Variables) (found : List (SequenceFlow × FlowElement))
    → All Fits found
    → route id v (map (λ c. c.0) found) ≡ towards id v (choose found)
unfolding choose
same_choice id v [] h = unfold default_flow first_default in refl
same_choice id v (c ∷ found) h = ground (arith, same_default (c ∷ found) h, h.0)

-- Where every flow of the process leads to a node and no condition has an empty text, the executor
-- sends the token of an exclusive gateway to the element that the graph chooses for it, and fails
-- exactly where the graph finds none.
pub execute_exclusive_gateway_lem :
    (p : Process) (id : String) (v : Variables)
    → let g = build_graph p in
      All (IsUsual g) g.sequence_flows
      → execute_exclusive_gateway g id v ≡ towards id v (evaluate_exclusive_gateway g id)
unfolding execute_exclusive_gateway evaluate_exclusive_gateway
execute_exclusive_gateway_lem p id v h =
    let g = build_graph p in
    let (same, fits) = candidates-flows p id g.sequence_flows h in
    ap (route id v) (sym same) ∙ same_choice id v (candidates g id g.sequence_flows) fits

-- ===== src/Bpmn/Graph/Nodes.antt =====
-- The nodes of a built graph: the `Nodes` map of engine/internal/core/bpmn/graph.go.
use proctssor.Prelude.{
  String, ◌==◌, eq_iff, ◌≡◌, ◌≢◌, refl, sym, ◌∙◌, not, ◌&&◌, List, [], ◌∷◌, lookup, lookup-insert,
  Map, insert, ◌++◌, ap, or_else, Option, none, some, if◌then◌else◌, arith,
}
use proctssor.Bpmn.Elements.{SequenceFlow}
use proctssor.Bpmn.Process.{FlowElement, Process, get_id}
use proctssor.Bpmn.Graph.{
  Graph, at, append_at, new_graph, categorize, add_element, add_elements, add_flow, add_flows,
  build_graph,
}
use proctssor.Bpmn.Graph.Queries.{get_element_by_id}

pub at-append_at {ℓ} :
    {A : Type ℓ} (k j : String) (t : A) (m : Map (List A))
    → at j (append_at k t m) ≡ (if k == j then at j m ++ t ∷ [] else at j m)
unfolding at append_at
at-append_at k j t m = ground (arith, lookup-insert k j (at k m ++ t ∷ []) m, eq_iff k j)

-- The last element of the list with the identifier, where it is not empty.
abbrev pub last_named : String → List (Option FlowElement) → Option FlowElement
last_named id [] = none
last_named id (none ∷ elems) = last_named id elems
last_named id (some elem ∷ elems) =
    or_else (last_named id elems) (if get_id elem == id && not (id == "") then some elem else none)

-- The category of an element touches neither the nodes nor the edges.
pub record Keeps (g h : Graph) : Type 0 where
  pub nodes : h.nodes ≡ g.nodes
  pub edges : h.edges ≡ g.edges
  pub flows : h.sequence_flows ≡ g.sequence_flows

pub categorize-Keeps : (elem : FlowElement) (g : Graph) → Keeps g (categorize elem g)
unfolding build_graph
categorize-Keeps (FlowElement.start_event e) g = ground arith
categorize-Keeps _ g = ground arith

lookup-add_element :
    (id : String) (elem : FlowElement) (g : Graph)
    → lookup id (add_element g (some elem)).nodes
      ≡ or_else
          (if get_id elem == id && not (id == "") then some elem else none)
          (lookup id g.nodes)
unfolding add_element
lookup-add_element id elem g = ground (
  arith,
  categorize-Keeps elem (record g { nodes = insert (get_id elem) elem g.nodes }),
  lookup-insert (get_id elem) id elem g.nodes,
  eq_iff (get_id elem) id,
  eq_iff id "",
  eq_iff (get_id elem) "",
)

or_else_assoc : (a b c : Option FlowElement) → or_else (or_else a b) c ≡ or_else a (or_else b c)
or_else_assoc none b c = refl
or_else_assoc (some a) b c = refl

or_else-none : (a : Option FlowElement) → or_else a none ≡ a
or_else-none none = refl
or_else-none (some a) = refl

lookup-add_elements :
    (id : String) (elems : List (Option FlowElement)) (g : Graph)
    → lookup id (add_elements g elems).nodes ≡ or_else (last_named id elems) (lookup id g.nodes)
unfolding add_elements add_element
lookup-add_elements id [] g = refl
lookup-add_elements id (none ∷ elems) g = lookup-add_elements id elems g
lookup-add_elements id (some elem ∷ elems) g =
    lookup-add_elements id elems (add_element g (some elem))
    ∙ ap (or_else (last_named id elems)) (lookup-add_element id elem g)
    ∙ sym (or_else_assoc (last_named id elems) _ (lookup id g.nodes))

pub add_flow-nodes : (flow : SequenceFlow) (g : Graph) → (add_flow g flow).nodes ≡ g.nodes
unfolding add_flow
add_flow-nodes flow g = ground arith

pub add_flows-nodes : (flows : List SequenceFlow) (g : Graph) → (add_flows g flows).nodes ≡ g.nodes
unfolding add_flows
add_flows-nodes [] g = refl
add_flows-nodes (flow ∷ flows) g = add_flows-nodes flows (add_flow g flow) ∙ add_flow-nodes flow g

pub lookup-add_elements_new :
    (elems : List (Option FlowElement)) (id : String)
    → lookup id (add_elements new_graph elems).nodes ≡ last_named id elems
unfolding build_graph lookup
lookup-add_elements_new elems id =
    lookup-add_elements id elems new_graph ∙ or_else-none (last_named id elems)

-- `GetElementByID` on the graph of a process finds the last element of the process with that
-- identifier, and finds nothing where there is none; the empty identifier is never found.
pub build_graph-lookup :
    (p : Process) (id : String)
    → get_element_by_id (build_graph p) id ≡ last_named id p.flow_element
unfolding build_graph get_element_by_id
build_graph-lookup p id =
    ap (λ m. lookup id m) (add_flows-nodes p.sequence_flow (add_elements new_graph p.flow_element))
    ∙ lookup-add_elements_new p.flow_element id

last_named_sound :
    (id : String) (elems : List (Option FlowElement)) (e : FlowElement)
    → last_named id elems ≡ some e
    → (get_id e ≡ id) × (id ≢ "")
last_named_sound id [] e h = cc
last_named_sound id (none ∷ elems) e h = last_named_sound id elems e h
last_named_sound id (some elem ∷ elems) e h =
    ground (arith, eq_iff (get_id elem) id, eq_iff id "", last_named_sound id elems e)

-- A node of a built graph stands under its own identifier, which is not empty.
pub node_named :
    (p : Process) (id : String) (e : FlowElement)
    → get_element_by_id (build_graph p) id ≡ some e
    → (get_id e ≡ id) × (id ≢ "")
node_named p id e h = last_named_sound id p.flow_element e (sym (build_graph-lookup p id) ∙ h)

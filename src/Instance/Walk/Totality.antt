-- ===== src/Instance/Walk/Totality.antt =====
-- Where a walk can go, and that it ends on a graph without cycles:
-- engine/internal/service/instance_service.go and engine/internal/core/executor/executor.go.
use proctssor.Prelude.{
  ℕ, zero, suc, ◌<◌, String, ◌==◌, ◌≡◌, ◌⊎◌, eq_iff, refl, subst, true, List, [], ◌∷◌, map, Map,
  none, some, ok, err, Result, Result-cases, Option-cases, Bool-cases, inl, inr, arith, is_some,
  lookup, All,
}
use mathlib.Core.Option.{some-injective}
use proctssor.Token.{Variables}
use proctssor.Bpmn.Elements.{SequenceFlow, ServiceTask, SendTask}
use proctssor.Bpmn.Process.{FlowElement, get_outgoing_flows}
use proctssor.Bpmn.Graph.{Graph}
use proctssor.Bpmn.Graph.Queries.{get_element_by_id}
use proctssor.Execution.{ExecutionResult}
use proctssor.Executor.Publisher.{Sent}
use proctssor.Executor.Node.{
  Executor, Context, ExecutorError, execute_node, execute_service_task, execute_send_task,
  execute_exclusive_gateway, execute_first_flow, execute_external_task, execute_delegate_expression,
  request_service, execute_expression, default_flow, first_flow, first_outgoing, first_or_empty,
  is_conditional,
}
use proctssor.Instance.Walk.{Surroundings, Position, advance, walk, execute_instance}
use proctssor.Instance.Store.{World}

-- The identifiers that the executor can name as the next node: the `Outgoing` entries of start
-- events, boundary events and send tasks, and the targets of the flows out of a gateway.
abbrev pub nexts : Graph → FlowElement → List String
nexts g (FlowElement.start_event n) = n.outgoing
nexts g (FlowElement.boundary_event n) = n.outgoing
nexts g (FlowElement.send_task n) = n.outgoing
nexts g (FlowElement.exclusive_gateway n) =
    map (λ flow. flow.target_ref) (get_outgoing_flows g.sequence_flows n.id)
nexts g (FlowElement.inclusive_gateway n) =
    map (λ flow. flow.target_ref) (get_outgoing_flows g.sequence_flows n.id)
nexts g (FlowElement.parallel_gateway n) =
    map (λ flow. flow.target_ref) (get_outgoing_flows g.sequence_flows n.id)
nexts g _ = []

-- A result that names no next node, or one with the property.
abbrev Goes : (String → Type 0) → Result ExecutorError ExecutionResult → Type 0
Goes P (err e) = Unit
Goes P (ok r) = (r.next_node_id ≡ "") ⊎ P r.next_node_id

default_flow-All :
    (P : String → Type 0) (flows : List SequenceFlow) (flow : SequenceFlow)
    → All P (map (λ flow. flow.target_ref) flows)
    → default_flow flows ≡ some flow
    → P flow.target_ref
unfolding default_flow
default_flow-All P [] flow h e = cc
default_flow-All P (x ∷ flows) flow h e = elim (Bool-cases (is_conditional x)) [
  | inl c ↦ default_flow-All P flows flow h.1 (rw c at e)
  | inr d ↦ subst (λ f. P f.target_ref) (some-injective _ _ (rw d at e)) h.0
]

first_flow-Goes :
    (P : String → Type 0) (id : String) (flows : List SequenceFlow) (v : Variables)
    → All P (map (λ flow. flow.target_ref) flows)
    → Goes P (first_flow id flows v)
first_flow-Goes P id [] v h = tt
first_flow-Goes P id (flow ∷ flows) v h = inr h.0

gateway-Goes :
    (P : String → Type 0) (g : Graph) (id : String) (v : Variables)
    → All P (map (λ flow. flow.target_ref) (get_outgoing_flows g.sequence_flows id))
    → Goes P (execute_exclusive_gateway g id v)
unfolding execute_exclusive_gateway
gateway-Goes P g id v h =
    let flows = get_outgoing_flows g.sequence_flows id in
    elim (Option-cases (default_flow flows)) [
      | inl conditional ↦
          rw (conditional, execute_exclusive_gateway) (first_flow-Goes P id flows v h)
      | inr (flow, plain) ↦
          rw (plain, execute_exclusive_gateway) (inr (default_flow-All P flows flow h plain))
    ]

service-Goes :
    (P : String → Type 0) (e : Executor) (ctx : Context) (sent : Sent) (n : ServiceTask)
    (v : Variables)
    → Goes P (execute_service_task e ctx sent n v).0
unfolding execute_service_task execute_external_task execute_delegate_expression request_service
    execute_expression
service-Goes P e ctx sent n v = ground arith

outgoing-Goes :
    (P : String → Type 0) (ids : List String)
    → All P ids
    → (first_or_empty ids ≡ "") ⊎ P (first_or_empty ids)
outgoing-Goes P [] h = inl refl
outgoing-Goes P (id ∷ ids) h = inr h.0

first_outgoing-Goes :
    (P : String → Type 0) (id : String) (ids : List String) (v : Variables)
    → All P ids
    → Goes P (first_outgoing id ids v)
first_outgoing-Goes P id [] v h = tt
first_outgoing-Goes P id (next ∷ ids) v h = inr h.0

send-Goes :
    (P : String → Type 0) (e : Executor) (ctx : Context) (sent : Sent) (n : SendTask)
    (v : Variables)
    → All P n.outgoing
    → Goes P (execute_send_task e ctx sent n v).0
unfolding execute_send_task
send-Goes P e ctx sent n v h = let next = outgoing-Goes P n.outgoing h in ground (arith, next)

execute_node-Goes :
    (P : String → Type 0) (e : Executor) (ctx : Context) (sent : Sent) (g : Graph)
    (node : FlowElement) (v : Variables)
    → All P (nexts g node)
    → Goes P (execute_node e ctx sent g node v).0
unfolding execute_node execute_first_flow
execute_node-Goes P e ctx sent g (FlowElement.start_event n) v h =
    first_outgoing-Goes P n.id n.outgoing v h
execute_node-Goes P e ctx sent g (FlowElement.service_task n) v h = service-Goes P e ctx sent n v
execute_node-Goes P e ctx sent g (FlowElement.send_task n) v h = send-Goes P e ctx sent n v h
execute_node-Goes P e ctx sent g (FlowElement.exclusive_gateway n) v h = gateway-Goes P g n.id v h
execute_node-Goes P e ctx sent g (FlowElement.inclusive_gateway n) v h =
    first_flow-Goes P n.id (get_outgoing_flows g.sequence_flows n.id) v h
execute_node-Goes P e ctx sent g (FlowElement.parallel_gateway n) v h =
    first_flow-Goes P n.id (get_outgoing_flows g.sequence_flows n.id) v h
execute_node-Goes P e ctx sent g (FlowElement.boundary_event n) v h =
    first_outgoing-Goes P n.id n.outgoing v h
execute_node-Goes P e ctx sent g _ v h = ground arith

-- A round that goes on goes to one of the next identifiers.
advance-nexts :
    (P : String → Type 0) (e : Executor) (fresh : ℕ → String) (now : ℕ → ℕ) (id : String)
    (g : Graph) (at : Position) (node : FlowElement)
    → get_element_by_id g at.node_id ≡ some node
    → All P (nexts g node)
    → (advance e fresh now id g at).0 ≡ none
    → P (advance e fresh now id g at).1.node_id
unfolding advance
advance-nexts P e fresh now id g at node found h on =
    let ctx : Context = record {
      instance_id = some id;
      node_id = none;
      fresh = fresh;
      now = now;
    } in
    let goes = execute_node-Goes P e ctx at.sent g node at.variables h in
    elim (Result-cases (execute_node e ctx at.sent g node at.variables).0) [
      | inr (fault, stopped) ↦ ground (arith, found, stopped, on)
      | inl (r, done) ↦
          let ended = eq_iff r.next_node_id "" in
          elim (subst (Goes P) done goes) [
            | inl over ↦ ground (arith, found, done, on, over, ended)
            | inr good ↦ ground (arith, found, done, on, good, ended)
          ]
    ]

-- Every identifier that a node can name as the next one has a smaller rank than the node.
abbrev pub IsRanked : (String → ℕ) → Graph → Type 0
IsRanked rank g =
    All (λ (entry : String × FlowElement). All (λ next. rank next < rank entry.0) (nexts g entry.1))
      g.nodes

lookup-All :
    (Q : String × FlowElement → Type 0) (m : Map FlowElement) (k : String) (v : FlowElement)
    → All Q m
    → lookup k m ≡ some v
    → Q (k, v)
unfolding lookup
lookup-All Q [] k v h e = cc
lookup-All Q ((j, w) ∷ m) k v h e = elim (Bool-cases (j == k)) [
  | inl same ↦
      subst (λ i. Q (i, v)) ((eq_iff j k).0 same)
        (subst (λ u. Q (j, u)) (some-injective _ _ (rw same at e)) h.0)
  | inr other ↦ lookup-All Q m k v h.1 (rw other at e)
]

-- A round that goes on has found its node.
advance-found :
    (e : Executor) (fresh : ℕ → String) (now : ℕ → ℕ) (id : String) (g : Graph) (at : Position)
    → (advance e fresh now id g at).0 ≡ none
    → (node : FlowElement) × (get_element_by_id g at.node_id ≡ some node)
unfolding advance
advance-found e fresh now id g at on = elim (Option-cases (get_element_by_id g at.node_id)) [
  | inr known ↦ known
  | inl missing ↦ absurd (ground (arith, missing, on))
]

walk-ends :
    (e : Executor) (s : Surroundings) (id : String) (g : Graph) (rank : String → ℕ) (k fuel : ℕ)
    (at : Position)
    → IsRanked rank g
    → rank at.node_id < fuel
    → is_some (walk e s id g k fuel at) ≡ true
unfolding walk get_element_by_id
walk-ends e s id g rank k zero at h enough = absurd (omega arith)
walk-ends e s id g rank k (suc fuel) at h enough =
    let fresh = s.fresh k in
    let now = s.now k in
    elim (Option-cases (advance e fresh now id g at).0) [
      | inr (how, over) ↦ rw (over, walk) refl
      | inl on ↦
          let (node, found) = advance-found e fresh now id g at on in
          let smaller : String → Type 0 = λ next. rank next < rank at.node_id in
          let inside = lookup-All _ g.nodes at.node_id node h found in
          let falls = advance-nexts smaller e fresh now id g at node found inside on in
          rw (on, walk)
            (walk-ends e s id g rank (suc k) fuel (advance e fresh now id g at).1 h
              (omega (arith, falls, enough)))
    ]

-- On a graph with a rank that falls to every next identifier, so without a cycle through gateways
-- and events, `executeInstance` ends after at most as many rounds as the rank of its start, and
-- one more, whatever the executor, the publisher and the database answer.
pub execute_instance_total :
    (e : Executor) (s : Surroundings) (id : String) (g : Graph) (rank : String → ℕ) (fuel : ℕ)
    (start : String) (variables : Variables) (w : World)
    → IsRanked rank g
    → rank start < fuel
    → is_some (execute_instance e s id g fuel start variables w) ≡ true
unfolding execute_instance
execute_instance_total e s id g rank fuel start variables w h enough = ground (
  arith,
  walk-ends e s id g rank 0 fuel (record { node_id = start; variables = variables; sent = w.sent })
      h enough,
)

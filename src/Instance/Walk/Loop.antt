-- ===== src/Instance/Walk/Loop.antt =====
-- The rounds of the loop of `executeInstance`: engine/internal/service/instance_service.go, with
-- the nodes of engine/internal/core/executor/executor.go.
use proctssor.Prelude.{ℕ, String, ◌≡◌, some, arith}
use proctssor.Bpmn.Process.{FlowElement}
use proctssor.Bpmn.Graph.{Graph}
use proctssor.Bpmn.Graph.Queries.{get_element_by_id}
use proctssor.Executor.Node.{Executor, execute_node, execute_service_task}
use proctssor.Instance.Walk.{Position, finished, advance}

-- The nodes that the executor leaves without a next node and without waiting: an end event, and
-- also a script, a manual task, a throw event, and a service task with nothing to call.
abbrev pub IsPassive : FlowElement → Type 0
IsPassive (FlowElement.end_event n) = Unit
IsPassive (FlowElement.script_task n) = Unit
IsPassive (FlowElement.manual_task n) = Unit
IsPassive (FlowElement.intermediate_throw_event n) = Unit
IsPassive (FlowElement.service_task n) =
    (n.class ≡ "") × (n.expression ≡ "") × (n.delegate_expression ≡ "") × (n.topic ≡ "")
IsPassive _ = ⊥

-- A walk that meets such a node is finished there, whatever flows lead out of the node: the
-- instance is completed with the variables that it has.
pub advance-IsPassive :
    (e : Executor) (fresh : ℕ → String) (now : ℕ → ℕ) (id : String) (g : Graph) (at : Position)
    (node : FlowElement)
    → get_element_by_id g at.node_id ≡ some node
    → IsPassive node
    → advance e fresh now id g at ≡ (some finished, at)
unfolding advance execute_node execute_service_task
advance-IsPassive e fresh now id g at node found h = ground (arith, found, h)

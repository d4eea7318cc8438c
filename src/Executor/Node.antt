-- ===== src/Executor/Node.antt =====
-- `ExecuteNode` and the function of each kind of node:
-- engine/internal/core/executor/executor.go and delegate_expression.go.
use proctssor.Prelude.{
  ℕ, String, ◌==◌, Bool, true, false, not, List, [], ◌∷◌, Map, lookup, insert, merge, Option, none,
  some, if◌then◌else◌, is_some, Result, ok, err,
}
use proctssor.Token.{Variables, text, bool}
use proctssor.Execution.{ExecutionResult, zero_result}
use proctssor.Bpmn.Elements.{ServiceTask, SendTask, SequenceFlow}
use proctssor.Bpmn.Process.{FlowElement, get_outgoing_flows}
use proctssor.Bpmn.Graph.{Graph}
use proctssor.Executor.Publisher.{
  CommandType, WorkflowCommand, Sent, Publisher, publish_command, publish_with_retry,
}
use proctssor.Executor.Delegate.{parse}

-- What the registry's cache holds: a service with its metadata, or a value of another type.
pub data Cached : Type 0 where
  service : Map String → Cached
  other : Cached

-- `DefaultExecutor`, with what it reaches. `evaluate` answers for the expression evaluator. A nil
-- cache or publisher is `none`.
pub record Executor : Type 0 where
  pub evaluate : Variables → String → Result String Bool
  pub registry_cache : Option (String → Option Cached)
  pub publisher : Option Publisher

-- The context of one execution: the values under its two keys, and the identifiers and times that
-- its calls of `uuid.New` and `time.Now` give.
pub record Context : Type 0 where
  pub instance_id : Option String
  pub node_id : Option String
  pub fresh : ℕ → String
  pub now : ℕ → ℕ

pub data ExecutorError : Type 0 where
  no_outgoing_flows unsupported : String → ExecutorError
  evaluation_failed publish_failed : String → ExecutorError
  publisher_missing registry_missing invalid_service : ExecutorError
  invalid_delegate service_not_found action_not_found : String → ExecutorError

abbrev pub Executed : Type 0
Executed = Result ExecutorError ExecutionResult × Sent

-- `GetInstanceID` and `GetNodeID`.
abbrev pub or_empty : Option String → String
or_empty none = ""
or_empty (some s) = s

-- The result that goes on to a node, the one that waits, and the one that names no node.
abbrev pub goes_to : String → Variables → ExecutionResult
goes_to id variables = record zero_result { next_node_id = id; variables = variables }

abbrev pub awaits : String → Variables → ExecutionResult
awaits kind variables = record zero_result {
  variables = variables;
  await = true;
  await_type = kind;
}

abbrev pub passes : Variables → ExecutionResult
passes variables = record zero_result { variables = variables }

-- Start events and boundary events: the first entry of `Outgoing`.
abbrev pub first_outgoing : String → List String → Variables → Result ExecutorError ExecutionResult
first_outgoing id [] variables = err (no_outgoing_flows id)
first_outgoing id (next ∷ _) variables = ok (goes_to next variables)

-- `executeExternalTask`. The first identifier is the token's.
unfoldable pub execute_external_task : Executor → Context → Sent → String → Variables → Executed
execute_external_task e ctx sent topic variables = elim e.publisher [
  | none ↦ (err publisher_missing, sent)
  | some p ↦
      let cmd : WorkflowCommand = record {
        command_id = "";
        command_type = CommandType.service_task;
        instance_id = or_empty ctx.instance_id;
        token_id = ctx.fresh 0;
        node_id = or_empty ctx.node_id;
        service_name = topic;
        operation = "execute";
        input_variables = variables;
        created_at = none;
        expires_at = none;
        retry_count = 0;
        max_retries = 3;
      } in
      let (_, fault, sent') = publish_command p sent (ctx.fresh 1) (ctx.now 0) cmd in
      (
        elim fault [
          | some reason ↦ err (publish_failed reason)
          | none ↦ ok (awaits "external_task" variables)
        ],
        sent',
      )
]

-- `executeDelegateExpression` from where the service and the action are known to exist.
unfoldable pub request_service : Executor → Context → Sent → String → String → Variables → Executed
request_service e ctx sent name action variables = elim e.publisher [
  | none ↦ (err publisher_missing, sent)
  | some p ↦
      let cmd : WorkflowCommand = record {
        command_id = "";
        command_type = CommandType.service_task;
        instance_id = or_empty ctx.instance_id;
        token_id = "";
        node_id = or_empty ctx.node_id;
        service_name = name;
        operation = action;
        input_variables = merge [] variables;
        created_at = some (ctx.now 0);
        expires_at = none;
        retry_count = 0;
        max_retries = 3;
      } in
      let (fault, sent') = publish_with_retry p sent ctx.fresh ctx.now 0 3 cmd in
      (
        elim fault [
          | some reason ↦ err (publish_failed reason)
          | none ↦ ok (awaits "external_service" variables)
        ],
        sent',
      )
]

-- `executeDelegateExpression`.
unfoldable pub execute_delegate_expression :
    Executor → Context → Sent → String → Variables → Executed
execute_delegate_expression e ctx sent expression variables = elim (parse expression) [
  | none ↦ (err (invalid_delegate expression), sent)
  | some (name, action) ↦ elim e.registry_cache [
    | none ↦ (err registry_missing, sent)
    | some get ↦ elim (get name) [
      | none ↦ (err (service_not_found name), sent)
      | some other ↦ (err invalid_service, sent)
      | some (service metadata) ↦
          if is_some (lookup action metadata)
          then request_service e ctx sent name action variables
          else (err (action_not_found action), sent)
    ]
  ]
]

-- `executeExpression`: only whether the evaluation fails counts.
unfoldable pub execute_expression :
    Executor → String → Variables → Result ExecutorError ExecutionResult
execute_expression e expression variables = elim (e.evaluate variables expression) [
  | err message ↦ err (evaluation_failed message)
  | ok _ ↦ ok (passes (insert "_lastExpressionResult" (bool true) variables))
]

-- `executeServiceTask`; `executeDelegateClass` passes.
unfoldable pub execute_service_task : Executor → Context → Sent → ServiceTask → Variables → Executed
execute_service_task e ctx sent node variables =
    let by_topic = execute_external_task e ctx sent node.topic variables in
    let by_delegate = execute_delegate_expression e ctx sent node.delegate_expression variables in
    let by_expression = execute_expression e node.expression variables in
    if not (node.class == "")
    then (ok (passes variables), sent)
    else if not (node.expression == "")
    then (by_expression, sent)
    else if not (node.delegate_expression == "")
    then by_delegate
    else if not (node.topic == "")
    then by_topic
    else (ok (passes variables), sent)

abbrev pub business_key : Variables → String
business_key variables = elim (lookup "businessKey" variables) [ some (text s) ↦ s | _ ↦ "" ]

abbrev pub first_or_empty : List String → String
first_or_empty [] = ""
first_or_empty (id ∷ _) = id

-- `executeSendTask`: without a publisher, or without a message, nothing is sent.
unfoldable pub execute_send_task : Executor → Context → Sent → SendTask → Variables → Executed
execute_send_task e ctx sent node variables =
    let next = goes_to (first_or_empty node.outgoing) variables in
    elim e.publisher [
      | none ↦ (ok next, sent)
      | some p ↦
          let cmd : WorkflowCommand = record {
            command_id = "";
            command_type = CommandType.message;
            instance_id = or_empty ctx.instance_id;
            token_id = "";
            node_id = node.message_ref;
            service_name = "";
            operation = business_key variables;
            input_variables = variables;
            created_at = none;
            expires_at = none;
            retry_count = 0;
            max_retries = 3;
          } in
          let (_, fault, sent') = publish_command p sent (ctx.fresh 0) (ctx.now 0) cmd in
          if node.message_ref == ""
          then (ok next, sent)
          else (elim fault [ some reason ↦ err (publish_failed reason) | none ↦ ok next ], sent')
    ]

-- `flow.ConditionExpression != nil && flow.ConditionExpression.Text != ""`.
abbrev pub is_conditional : SequenceFlow → Bool
is_conditional flow = elim flow.condition_expression [ none ↦ false | some c ↦ not (c.text == "") ]

-- The loop for the default flow.
unfoldable pub default_flow : List SequenceFlow → Option SequenceFlow
default_flow [] = none
default_flow (flow ∷ flows) = if is_conditional flow then default_flow flows else some flow

abbrev pub first_flow :
    String → List SequenceFlow → Variables → Result ExecutorError ExecutionResult
first_flow id [] variables = err (no_outgoing_flows id)
first_flow id (flow ∷ _) variables = ok (goes_to flow.target_ref variables)

-- `executeExclusiveGateway`.
unfoldable pub execute_exclusive_gateway :
    Graph → String → Variables → Result ExecutorError ExecutionResult
execute_exclusive_gateway g id variables =
    let flows = get_outgoing_flows g.sequence_flows id in
    elim (default_flow flows) [
      | some flow ↦ ok (goes_to flow.target_ref variables)
      | none ↦ first_flow id flows variables
    ]

-- `executeInclusiveGateway` and `executeParallelGateway`: the first flow.
unfoldable pub execute_first_flow :
    Graph → String → Variables → Result ExecutorError ExecutionResult
execute_first_flow g id variables = first_flow id (get_outgoing_flows g.sequence_flows id) variables

-- `ExecuteNode`. The last case is the `default` of its switch.
unfoldable pub execute_node : Executor → Context → Sent → Graph → FlowElement → Variables → Executed
execute_node e ctx sent g (FlowElement.start_event n) v = (first_outgoing n.id n.outgoing v, sent)
execute_node e ctx sent g (FlowElement.end_event n) v =
    (ok (record zero_result { variables = v; terminated = true }), sent)
execute_node e ctx sent g (FlowElement.user_task n) v = (ok (awaits "user_task" v), sent)
execute_node e ctx sent g (FlowElement.service_task n) v = execute_service_task e ctx sent n v
execute_node e ctx sent g (FlowElement.script_task n) v = (ok (passes v), sent)
execute_node e ctx sent g (FlowElement.manual_task n) v = (ok (passes v), sent)
execute_node e ctx sent g (FlowElement.receive_task n) v = (
  ok (record (awaits "message" v) { message_ref = n.message_ref; correlation_key = "businessKey" }),
  sent,
)
execute_node e ctx sent g (FlowElement.send_task n) v = execute_send_task e ctx sent n v
execute_node e ctx sent g (FlowElement.exclusive_gateway n) v =
    (execute_exclusive_gateway g n.id v, sent)
execute_node e ctx sent g (FlowElement.inclusive_gateway n) v = (execute_first_flow g n.id v, sent)
execute_node e ctx sent g (FlowElement.parallel_gateway n) v = (execute_first_flow g n.id v, sent)
execute_node e ctx sent g (FlowElement.intermediate_catch_event n) v = (ok (awaits "event" v), sent)
execute_node e ctx sent g (FlowElement.intermediate_throw_event n) v = (ok (passes v), sent)
execute_node e ctx sent g (FlowElement.boundary_event n) v =
    (first_outgoing n.id n.outgoing v, sent)
execute_node e ctx sent g (FlowElement.complex_gateway n) v = (err (unsupported n.id), sent)
execute_node e ctx sent g (FlowElement.event_based_gateway n) v = (err (unsupported n.id), sent)
execute_node e ctx sent g (FlowElement.sub_process n) v = (err (unsupported n.id), sent)
execute_node e ctx sent g (FlowElement.ad_hoc_sub_process n) v = (err (unsupported n.id), sent)
execute_node e ctx sent g (FlowElement.transaction n) v = (err (unsupported n.id), sent)

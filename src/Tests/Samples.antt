-- ===== src/Tests/Samples.antt =====
-- A small process, a saga and orchestrators, on which the theorems are tried.
use proctssor.Prelude.{
  String, ◌==◌, negsuc, true, false, List, [], ◌∷◌, Option, none, some, if◌then◌else◌, ok, err,
}
use proctssor.Token.{Variables, bool, text}
use proctssor.Execution.{zero_result}
use proctssor.Bpmn.Elements.{ServiceTask, BoundaryEvent, ConditionExpression, SequenceFlow}
use proctssor.Bpmn.Process.{
  FlowElement, start_event, end_event, service_task, exclusive_gateway, boundary_event, Process,
  get_id,
}
use proctssor.Bpmn.Graph.{Graph, build_graph}
use proctssor.Saga.Model.{SagaStatus, SagaStepStatus, SagaStep, Saga}
use proctssor.Saga.Calls.{SagaOrchestrator}
use proctssor.Saga.Compensate.{CompensationClock}
use proctssor.Saga.Execute.{StepClock}

abbrev pub task : String → String → ServiceTask
task id undo = record {
  id = id;
  name = id;
  incoming = [];
  outgoing = [];
  implementation = "";
  operation_ref = "";
  class = "";
  delegate_expression = "";
  expression = "";
  result_variable = "";
  topic = "";
  type = "";
  retries = "";
  retry_cycle = "";
  is_for_compensation = false;
  compensate_node_id = undo;
}

abbrev pub pay : FlowElement
pay = service_task (task "pay" "refund")

abbrev pub ship : FlowElement
ship = service_task (task "ship" "")

abbrev pub late : BoundaryEvent
late = record {
  id = "late";
  name = "";
  cancel_activity = "true";
  attached_to_ref = "pay";
  incoming = [];
  outgoing = [];
  timer_event_definition =
      some (record { id = ""; name = ""; time_duration = "PT5M"; time_date = ""; time_cycle = "" });
  error_event_definition = none;
}

abbrev pub choice : FlowElement
choice = exclusive_gateway (record {
  id = "choice";
  name = "";
  gateway_type = "";
  incoming = [];
  outgoing = [];
  default = "";
})

abbrev flow : String → String → Option ConditionExpression → SequenceFlow
flow source target condition = record {
  id = "";
  name = "";
  source_ref = source;
  target_ref = target;
  condition_expression = condition;
}

abbrev paid : ConditionExpression
paid = record { type = ""; evaluates_to_type_ref = ""; text = "${paid}" }

abbrev pub order : Process
order = record {
  id = "order";
  name = "";
  is_executable = "true";
  is_closed = "";
  process_type = "";
  flow_element =
      some (start_event (record { id = "start"; name = ""; outgoing = [] }))
      ∷ none
      ∷ some pay
      ∷ some (boundary_event late)
      ∷ some choice
      ∷ some ship
      ∷ some (end_event (record { id = "done"; name = ""; incoming = [] }))
      ∷ [];
  sequence_flow =
      flow "start" "pay" none
      ∷ flow "pay" "choice" none
      ∷ flow "choice" "ship" (some paid)
      ∷ flow "choice" "nowhere" none
      ∷ flow "choice" "done" none
      ∷ flow "ship" "done" none
      ∷ [];
}

abbrev pub graph : Graph
graph = build_graph order

abbrev pub receipt : Variables
receipt = ("paid", bool true) ∷ []

-- The executor refuses to ship, the handler refuses every compensation.
abbrev pub stubborn : SagaOrchestrator
stubborn = record {
  executor = λ trace g node input.
      if get_id node == "ship"
      then err "out of stock"
      else ok (record zero_result { variables = receipt });
  compensation_handler = some (λ trace id name input. err "no refund");
  saga_repository = none;
}

-- Nothing but an executor that always succeeds.
abbrev pub bare : SagaOrchestrator
bare = record {
  executor = λ trace g node input. ok (record zero_result { variables = receipt });
  compensation_handler = none;
  saga_repository = none;
}

abbrev pub clock : CompensationClock
clock = record { handled = λ i. 20; updated = 30; marked = λ i. 40; completed = 50 }

abbrev pub step_clock : StepClock
step_clock = record { executed = 10; updated = 11; compensation = clock }

abbrev pub step : String → String → SagaStepStatus → SagaStep
step node undo status = record {
  id = node;
  node_id = node;
  node_name = node;
  status = status;
  compensate_node_id = undo;
  compensate_node_name = undo;
  input_variables = ("amount", text "5") ∷ [];
  output_variables = [];
  compensate_input_variables = [];
  error = none;
  executed_at = some 9;
  compensated_at = none;
}

abbrev pub saga : List SagaStep → Saga
saga steps = record {
  id = "s";
  instance_id = "i";
  process_key = "order";
  status = SagaStatus.running;
  steps = steps;
  current_step_index = negsuc 0;
  variables = [];
  error = none;
  created_at = 1;
  updated_at = 1;
  completed_at = none;
}

-- Two steps done, one ahead, and one whose node no process has.
abbrev pub underway : Saga
underway = saga (
    step "pay" "refund" SagaStepStatus.completed
    ∷ step "choice" "" SagaStepStatus.completed
    ∷ step "ship" "" SagaStepStatus.pending
    ∷ step "lost" "" SagaStepStatus.pending
    ∷ [])

-- The same process without the flow to nowhere.
abbrev pub tidy : Process
tidy = record order {
  sequence_flow =
      flow "start" "pay" none
      ∷ flow "pay" "choice" none
      ∷ flow "choice" "ship" (some paid)
      ∷ flow "choice" "done" none
      ∷ [];
}

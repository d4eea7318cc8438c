-- ===== src/Bpmn/Process.antt =====
-- The interface `FlowElement` with its implementations, processes, and the queries on a process
-- at the end of parser.go: engine/internal/core/bpmn/model.go and parser.go.
use proctssor.Prelude.{
  String, ◌==◌, Bool, not, ◌&&◌, ◌||◌, List, [], ◌∷◌, Option, some, if◌then◌else◌, select, is_some,
}
use proctssor.Bpmn.Elements.{
  StartEvent, EndEvent, IntermediateCatchEvent, IntermediateThrowEvent, UserTask, ServiceTask,
  ScriptTask, ManualTask, ReceiveTask, SendTask, ExclusiveGateway, InclusiveGateway,
  ParallelGateway, ComplexGateway, EventBasedGateway, SubProcess, BoundaryEvent, SequenceFlow,
}

-- A value of the interface is a pointer to one of the structures, and is not nil.
pub data FlowElement : Type 0 where
  start_event : StartEvent → FlowElement
  end_event : EndEvent → FlowElement
  intermediate_catch_event : IntermediateCatchEvent → FlowElement
  intermediate_throw_event : IntermediateThrowEvent → FlowElement
  user_task : UserTask → FlowElement
  service_task : ServiceTask → FlowElement
  script_task : ScriptTask → FlowElement
  manual_task : ManualTask → FlowElement
  receive_task : ReceiveTask → FlowElement
  send_task : SendTask → FlowElement
  exclusive_gateway : ExclusiveGateway → FlowElement
  inclusive_gateway : InclusiveGateway → FlowElement
  parallel_gateway : ParallelGateway → FlowElement
  complex_gateway : ComplexGateway → FlowElement
  event_based_gateway : EventBasedGateway → FlowElement
  sub_process : SubProcess → FlowElement
  ad_hoc_sub_process : SubProcess → FlowElement
  transaction : SubProcess → FlowElement
  boundary_event : BoundaryEvent → FlowElement

pub data FlowElementType : Type 0 where
  unknown start_event end_event intermediate_catch_event : FlowElementType
  intermediate_throw_event user_task service_task script_task : FlowElementType
  manual_task receive_task send_task exclusive_gateway : FlowElementType
  inclusive_gateway parallel_gateway complex_gateway event_based_gateway : FlowElementType
  sub_process ad_hoc_sub_process transaction boundary_event : FlowElementType
  timer_boundary_event error_boundary_event compensation_boundary_event : FlowElementType
  compensation_end_event compensation_intermediate_throw_event : FlowElementType

unfoldable pub get_id : FlowElement → String
get_id (FlowElement.start_event e) = e.id
get_id (FlowElement.end_event e) = e.id
get_id (FlowElement.intermediate_catch_event e) = e.id
get_id (FlowElement.intermediate_throw_event e) = e.id
get_id (FlowElement.user_task e) = e.id
get_id (FlowElement.service_task e) = e.id
get_id (FlowElement.script_task e) = e.id
get_id (FlowElement.manual_task e) = e.id
get_id (FlowElement.receive_task e) = e.id
get_id (FlowElement.send_task e) = e.id
get_id (FlowElement.exclusive_gateway e) = e.id
get_id (FlowElement.inclusive_gateway e) = e.id
get_id (FlowElement.parallel_gateway e) = e.id
get_id (FlowElement.complex_gateway e) = e.id
get_id (FlowElement.event_based_gateway e) = e.id
get_id (FlowElement.sub_process e) = e.id
get_id (FlowElement.ad_hoc_sub_process e) = e.id
get_id (FlowElement.transaction e) = e.id
get_id (FlowElement.boundary_event e) = e.id

unfoldable pub get_name : FlowElement → String
get_name (FlowElement.start_event e) = e.name
get_name (FlowElement.end_event e) = e.name
get_name (FlowElement.intermediate_catch_event e) = e.name
get_name (FlowElement.intermediate_throw_event e) = e.name
get_name (FlowElement.user_task e) = e.name
get_name (FlowElement.service_task e) = e.name
get_name (FlowElement.script_task e) = e.name
get_name (FlowElement.manual_task e) = e.name
get_name (FlowElement.receive_task e) = e.name
get_name (FlowElement.send_task e) = e.name
get_name (FlowElement.exclusive_gateway e) = e.name
get_name (FlowElement.inclusive_gateway e) = e.name
get_name (FlowElement.parallel_gateway e) = e.name
get_name (FlowElement.complex_gateway e) = e.name
get_name (FlowElement.event_based_gateway e) = e.name
get_name (FlowElement.sub_process e) = e.name
get_name (FlowElement.ad_hoc_sub_process e) = e.name
get_name (FlowElement.transaction e) = e.name
get_name (FlowElement.boundary_event e) = e.name

-- `IsCompensatable` of a service task.
unfoldable pub is_compensatable : ServiceTask → Bool
is_compensatable t = t.is_for_compensation || not (t.compensate_node_id == "")

-- `IsInterrupting` of a boundary event.
unfoldable pub is_interrupting : BoundaryEvent → Bool
is_interrupting e = not (e.cancel_activity == "false")

unfoldable pub get_element_type : FlowElement → FlowElementType
get_element_type (FlowElement.start_event e) = FlowElementType.start_event
get_element_type (FlowElement.end_event e) = FlowElementType.end_event
get_element_type (FlowElement.intermediate_catch_event e) = FlowElementType.intermediate_catch_event
get_element_type (FlowElement.intermediate_throw_event e) = FlowElementType.intermediate_throw_event
get_element_type (FlowElement.user_task e) = FlowElementType.user_task
get_element_type (FlowElement.service_task e) =
    if e.is_for_compensation
    then FlowElementType.compensation_intermediate_throw_event
    else FlowElementType.service_task
get_element_type (FlowElement.script_task e) = FlowElementType.script_task
get_element_type (FlowElement.manual_task e) = FlowElementType.manual_task
get_element_type (FlowElement.receive_task e) = FlowElementType.receive_task
get_element_type (FlowElement.send_task e) = FlowElementType.send_task
get_element_type (FlowElement.exclusive_gateway e) = FlowElementType.exclusive_gateway
get_element_type (FlowElement.inclusive_gateway e) = FlowElementType.inclusive_gateway
get_element_type (FlowElement.parallel_gateway e) = FlowElementType.parallel_gateway
get_element_type (FlowElement.complex_gateway e) = FlowElementType.complex_gateway
get_element_type (FlowElement.event_based_gateway e) = FlowElementType.event_based_gateway
get_element_type (FlowElement.sub_process e) = FlowElementType.sub_process
get_element_type (FlowElement.ad_hoc_sub_process e) = FlowElementType.ad_hoc_sub_process
get_element_type (FlowElement.transaction e) = FlowElementType.transaction
get_element_type (FlowElement.boundary_event e) =
    if is_some e.timer_event_definition
    then FlowElementType.timer_boundary_event
    else FlowElementType.error_boundary_event

-- `none` in the list of elements is a nil interface value.
pub record Process : Type 0 where
  pub id : String
  pub name : String
  pub is_executable : String
  pub is_closed : String
  pub process_type : String
  pub flow_element : List (Option FlowElement)
  pub sequence_flow : List SequenceFlow

-- `GetOutgoingFlows`, over the flows of the process.
unfoldable pub get_outgoing_flows : List SequenceFlow → String → List SequenceFlow
get_outgoing_flows flows element_id = select (λ flow. flow.source_ref == element_id) flows

-- `GetBoundaryEventsForActivity` of parser.go: a scan of the process.
unfoldable pub process_boundary_events : List (Option FlowElement) → String → List BoundaryEvent
process_boundary_events [] activity_id = []
process_boundary_events (some (FlowElement.boundary_event be) ∷ elems) activity_id =
    if be.attached_to_ref == activity_id
    then be ∷ process_boundary_events elems activity_id
    else process_boundary_events elems activity_id
process_boundary_events (_ ∷ elems) activity_id = process_boundary_events elems activity_id

-- `GetTimerBoundaryEventsForActivity` and `GetErrorBoundaryEventsForActivity` of parser.go.
unfoldable pub process_timer_events : List (Option FlowElement) → String → List BoundaryEvent
process_timer_events [] activity_id = []
process_timer_events (some (FlowElement.boundary_event be) ∷ elems) activity_id =
    if be.attached_to_ref == activity_id && is_some be.timer_event_definition
    then be ∷ process_timer_events elems activity_id
    else process_timer_events elems activity_id
process_timer_events (_ ∷ elems) activity_id = process_timer_events elems activity_id

unfoldable pub process_error_events : List (Option FlowElement) → String → List BoundaryEvent
process_error_events [] activity_id = []
process_error_events (some (FlowElement.boundary_event be) ∷ elems) activity_id =
    if be.attached_to_ref == activity_id && is_some be.error_event_definition
    then be ∷ process_error_events elems activity_id
    else process_error_events elems activity_id
process_error_events (_ ∷ elems) activity_id = process_error_events elems activity_id

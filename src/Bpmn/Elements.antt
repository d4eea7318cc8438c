-- ===== src/Bpmn/Elements.antt =====
-- The element structures of engine/internal/core/bpmn/model.go. Kept are the fields that some
-- code outside the XML decoder can read; documentation, extension elements, renderings, resource
-- roles, data sets and the nested elements of sub-processes are left out. `name` is what
-- `GetName` returns.
use proctssor.Prelude.{String, Bool, List, Option}

pub record StartEvent : Type 0 where
  pub id : String
  pub name : String
  pub outgoing : List String

pub record EndEvent : Type 0 where
  pub id : String
  pub name : String
  pub incoming : List String

pub record IntermediateCatchEvent : Type 0 where
  pub id : String
  pub name : String
  pub incoming : List String
  pub outgoing : List String

pub record IntermediateThrowEvent : Type 0 where
  pub id : String
  pub name : String
  pub incoming : List String
  pub outgoing : List String

pub record UserTask : Type 0 where
  pub id : String
  pub name : String
  pub incoming : List String
  pub outgoing : List String
  pub implementation : String
  pub priority : String
  pub due_date : String

pub record ServiceTask : Type 0 where
  pub id : String
  pub name : String
  pub incoming : List String
  pub outgoing : List String
  pub implementation : String
  pub operation_ref : String
  pub class : String
  pub delegate_expression : String
  pub expression : String
  pub result_variable : String
  pub topic : String
  pub type : String
  pub retries : String
  pub retry_cycle : String
  pub is_for_compensation : Bool
  pub compensate_node_id : String

pub record ScriptTask : Type 0 where
  pub id : String
  pub name : String
  pub incoming : List String
  pub outgoing : List String
  pub script_format : String
  pub script : String
  pub auto_store_variables : String
  pub resource : String

pub record ManualTask : Type 0 where
  pub id : String
  pub name : String
  pub incoming : List String
  pub outgoing : List String

pub record ReceiveTask : Type 0 where
  pub id : String
  pub name : String
  pub incoming : List String
  pub outgoing : List String
  pub message_ref : String
  pub instantiate : String
  pub operation_ref : String

pub record SendTask : Type 0 where
  pub id : String
  pub name : String
  pub incoming : List String
  pub outgoing : List String
  pub implementation : String
  pub message_ref : String
  pub operation_ref : String

pub record ExclusiveGateway : Type 0 where
  pub id : String
  pub name : String
  pub gateway_type : String
  pub incoming : List String
  pub outgoing : List String
  pub default : String

pub record InclusiveGateway : Type 0 where
  pub id : String
  pub name : String
  pub gateway_type : String
  pub incoming : List String
  pub outgoing : List String
  pub default : String

pub record ParallelGateway : Type 0 where
  pub id : String
  pub name : String
  pub gateway_type : String
  pub incoming : List String
  pub outgoing : List String

pub record ComplexGateway : Type 0 where
  pub id : String
  pub name : String
  pub gateway_type : String
  pub incoming : List String
  pub outgoing : List String
  pub default : String
  pub activation_condition : String

pub record EventBasedGateway : Type 0 where
  pub id : String
  pub name : String
  pub gateway_type : String
  pub instantiate : String
  pub incoming : List String
  pub outgoing : List String

-- `SubProcess`, and what `AdHocSubProcess` and `Transaction` embed.
pub record SubProcess : Type 0 where
  pub id : String
  pub name : String
  pub triggered_by_event : String
  pub process_type : String
  pub incoming : List String
  pub outgoing : List String

pub record TimerEventDefinition : Type 0 where
  pub id : String
  pub name : String
  pub time_duration : String
  pub time_date : String
  pub time_cycle : String

pub record ErrorEventDefinition : Type 0 where
  pub id : String
  pub name : String
  pub error_ref : String

pub record BoundaryEvent : Type 0 where
  pub id : String
  pub name : String
  pub cancel_activity : String
  pub attached_to_ref : String
  pub incoming : List String
  pub outgoing : List String
  pub timer_event_definition : Option TimerEventDefinition
  pub error_event_definition : Option ErrorEventDefinition

pub record ConditionExpression : Type 0 where
  pub type : String
  pub evaluates_to_type_ref : String
  pub text : String

pub record SequenceFlow : Type 0 where
  pub id : String
  pub name : String
  pub source_ref : String
  pub target_ref : String
  pub condition_expression : Option ConditionExpression

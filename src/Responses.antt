-- ===== src/Responses.antt =====
-- The engine's side of the responses: engine/internal/integration/nats/subscriber.go. The channel of
-- responses is a queue, and its reader a step of its own. JetStream, JSON, the handlers that are set
-- and the publisher of the dead letter queue are parameters; what they are asked to do are acts.
pub mod Queue
pub mod Results
pub mod Kept
pub mod Handled
use Prim.Native.String.{◌++◌ as text_append}
use proctssor.Prelude.{
  ℕ, String, ◌==◌, Bool, true, false, List, [], ◌∷◌, ◌++◌, Map, lookup, insert, erase, Option, none,
  some, Result, ok, err, length, leb, is_some, if◌then◌else◌,
}
use proctssor.Token.{Token, Variables}
use proctssor.Execution.{ExecutionError, ExecutionResult}

-- A status is a text; `other` is any but the three constants.
pub data ResponseStatus : Type 0 where
  success error timeout : ResponseStatus
  other : String → ResponseStatus

pub record ServiceResponse : Type 0 where
  pub command_id : String
  pub instance_id : String
  pub token_id : String
  pub node_id : String
  pub status : ResponseStatus
  pub output_variables : Variables
  pub error_message : String
  pub error_code : String
  pub processed_at : ℕ

pub record Message : Type 0 where
  pub subject : String
  pub content : String

-- What happens outside, and the two ends of the channel.
pub data Act : Type 0 where
  acknowledged refused : Act
  queued taken : ServiceResponse → Act
  parked : String → String → Act
  succeeded failed : ServiceResponse → Act
  subscribed unsubscribed : String → Act
  closed : Act

-- `dlq` tells whether a publisher of the dead letter queue is there.
pub record ResponseHandler : Type 0 where
  pub subscriptions : Map Bool
  pub response_chan : List ServiceResponse
  pub success_set : Bool
  pub error_set : Bool
  pub dlq : Bool

-- `publishes`, `subscribe` and `unsubscribe` give the error of JetStream, if there is one.
pub record JetStream : Type 0 where
  pub decode : String → Result String ServiceResponse
  pub publishes : String → String → Option String
  pub subscribe : String → Option String
  pub unsubscribe : String → Option String

-- The capacity of the channel.
abbrev pub capacity : ℕ
capacity = 100

unfoldable pub new_response_handler : Bool → ResponseHandler
new_response_handler dlq = record {
  subscriptions = [];
  response_chan = [];
  success_set = false;
  error_set = false;
  dlq = dlq;
}

unfoldable pub send_to_dlq : JetStream → ResponseHandler → Message → List Act
send_to_dlq js h msg =
    let subject = text_append "wf.dlq." msg.subject in
    if h.dlq
    then elim (js.publishes subject msg.content) [
      | none ↦ Act.parked subject msg.content ∷ []
      | some e ↦ []
    ]
    else []

unfoldable pub handle_message :
    JetStream → ℕ → ResponseHandler → Message → List Act × ResponseHandler
handle_message js now h msg = elim (js.decode msg.content) [
  | err e ↦ (send_to_dlq js h msg ++ Act.refused ∷ [], h)
  | ok decoded ↦
      let response = record decoded { processed_at = now } in
      if leb capacity (length h.response_chan)
      then (send_to_dlq js h msg ++ Act.acknowledged ∷ [], h)
      else (
        Act.queued response ∷ Act.acknowledged ∷ [],
        record h { response_chan = h.response_chan ++ response ∷ [] },
      )
]

-- The error of a handler is only printed.
unfoldable pub process_response : ResponseHandler → ServiceResponse → List Act
process_response h response = elim response.status [
  | success ↦ if h.success_set then Act.succeeded response ∷ [] else []
  | error ↦ if h.error_set then Act.failed response ∷ [] else []
  | timeout ↦ if h.error_set then Act.failed response ∷ [] else []
  | other s ↦ []
]

-- One round of `processResponses`; on an empty channel it waits.
unfoldable pub process_next : ResponseHandler → List Act × ResponseHandler
process_next h = elim h.response_chan [
  | [] ↦ ([], h)
  | response ∷ rest ↦
      (Act.taken response ∷ process_response h response, record h { response_chan = rest })
]

unfoldable pub set_handlers : Bool → Bool → ResponseHandler → ResponseHandler
set_handlers success_set error_set h = record h { success_set = success_set; error_set = error_set }

unfoldable pub subscribe :
    JetStream → ResponseHandler → String → List Act × Option String × ResponseHandler
subscribe js h subject = elim (js.subscribe subject) [
  | some e ↦ (
    [],
    some (text_append "failed to subscribe to " (text_append subject (text_append ": " e))),
    h,
  )
  | none ↦ (
    Act.subscribed subject ∷ [],
    none,
    record h { subscriptions = insert subject true h.subscriptions },
  )
]

-- `Start`, which also starts the reader.
unfoldable pub start : JetStream → ResponseHandler → List Act × Option String × ResponseHandler
start js h = subscribe js h "wf.resp.>"

abbrev pub subject_of : String → String
subject_of instance_id = text_append "wf.resp." (text_append instance_id ".>")

unfoldable pub subscribe_to_instance :
    JetStream → ResponseHandler → String → List Act × Option String × ResponseHandler
subscribe_to_instance js h instance_id =
    let subject = subject_of instance_id in
    let fresh = subscribe js h subject in
    if is_some (lookup subject h.subscriptions) then ([], none, h) else fresh

unfoldable pub unsubscribe_from_instance :
    JetStream → ResponseHandler → String → List Act × Option String × ResponseHandler
unsubscribe_from_instance js h instance_id =
    let subject = subject_of instance_id in
    if is_some (lookup subject h.subscriptions)
    then (
      Act.unsubscribed subject ∷ [],
      js.unsubscribe subject,
      record h { subscriptions = erase subject h.subscriptions },
    )
    else ([], none, h)

abbrev all_unsubscribed : Map Bool → List Act
all_unsubscribed [] = []
all_unsubscribed (entry ∷ m) = Act.unsubscribed entry.0 ∷ all_unsubscribed m

-- `Stop`; the errors are only printed.
unfoldable pub stop : ResponseHandler → List Act × ResponseHandler
stop h = (all_unsubscribed h.subscriptions ++ Act.closed ∷ [], record h { subscriptions = [] })

-- `CreateWorkflowResponse`. The text of the zero value is the identifier of no command.
unfoldable pub create_workflow_response : ℕ → Token → ExecutionResult → ServiceResponse
create_workflow_response now token result =
    let response : ServiceResponse = record {
      command_id = "";
      instance_id = token.instance_id;
      token_id = token.id;
      node_id = token.node_id;
      status = ResponseStatus.success;
      output_variables = result.variables;
      error_message = "";
      error_code = "";
      processed_at = now;
    } in
    elim result.error [
      | none ↦ response
      | some e ↦ record response {
        status = ResponseStatus.error;
        error_code = e.code;
        error_message = e.message;
      }
    ]

-- What happens to a handler, one thing after the other.
pub data Event : Type 0 where
  delivered : ℕ → Message → Event
  processed : Event
  handlers_set : Bool → Bool → Event
  instance_subscribed instance_unsubscribed : String → Event
  started stopped : Event

unfoldable pub step : JetStream → ResponseHandler → Event → List Act × ResponseHandler
step js h (delivered now msg) = handle_message js now h msg
step js h processed = process_next h
step js h (handlers_set success_set error_set) = ([], set_handlers success_set error_set h)
step js h (instance_subscribed id) = let (acts, e, h') = subscribe_to_instance js h id in (acts, h')
step js h (instance_unsubscribed id) =
    let (acts, e, h') = unsubscribe_from_instance js h id in (acts, h')
step js h started = let (acts, e, h') = start js h in (acts, h')
step js h stopped = stop h

unfoldable pub run : JetStream → ResponseHandler → List Event → List Act × ResponseHandler
run js h [] = ([], h)
run js h (event ∷ events) =
    let (acts, h') = step js h event in let (more, h'') = run js h' events in (acts ++ more, h'')

-- ===== src/Workers.antt =====
-- What the worker services share: internal/nats/types.go, which gitlab-service, jira-service,
-- vault-service and notification-service have word for word, and the guards of their handlers.
pub mod Answers
pub mod Consumer
pub mod Vault
pub mod Gitlab
pub mod Jira
pub mod Notification
use proctssor.Prelude.{
  ℕ, String, Bool, true, false, ◌≡◌, ◌≢◌, ◌⊎◌, List, [], ◌∷◌, Map, lookup, Option, none, some,
}

-- The variables of a command, as JSON brings them. A `float64` is known by its bits.
mutual
  pub data Json : Type 0 where
    null : Json
    bool : Bool → Json
    number : ℕ → Json
    text : String → Json
    array : Items → Json
    object : Fields → Json

  pub data Items : Type 0 where
    nil : Items
    cons : Json → Items → Items

  pub data Fields : Type 0 where
    end : Fields
    field : String → Json → Fields → Fields

pub record WorkflowCommand : Type 0 where
  pub command_id : String
  pub command_type : String
  pub instance_id : String
  pub token_id : String
  pub node_id : String
  pub service_name : String
  pub operation : String
  pub input_variables : Map Json
  pub created_at : ℕ
  pub expires_at : ℕ
  pub retry_count : ℕ
  pub max_retries : ℕ

-- `unset` is the empty text, the zero value.
pub data ResponseStatus : Type 0 where
  unset success error timeout : ResponseStatus

-- The output variables are of a type of each service.
pub record ServiceResponse (V : Type 0) : Type 0 where
  pub command_id : String
  pub instance_id : String
  pub token_id : String
  pub node_id : String
  pub status : ResponseStatus
  pub output_variables : Map V
  pub error_message : String
  pub error_code : String
  pub processed_at : ℕ

-- The response that every `HandleCommand` starts with.
abbrev pub new_response : {V : Type 0} → ℕ → WorkflowCommand → ServiceResponse V
new_response now cmd = record {
  command_id = cmd.command_id;
  instance_id = cmd.instance_id;
  token_id = cmd.token_id;
  node_id = cmd.node_id;
  status = ResponseStatus.unset;
  output_variables = [];
  error_message = "";
  error_code = "";
  processed_at = now;
}

-- The three assignments before an early return with an error, and the two of a success.
abbrev pub refuse : {V : Type 0} → ServiceResponse V → String → String → ServiceResponse V
refuse resp code message = record resp {
  status = ResponseStatus.error;
  error_code = code;
  error_message = message;
}

abbrev pub succeed : {V : Type 0} → ServiceResponse V → Map V → ServiceResponse V
succeed resp outputs = record resp { status = ResponseStatus.success; output_variables = outputs }

-- `cmd.InputVariables[name].(string)`, `.(float64)` and `.(map[string]interface{})`.
unfoldable pub text_input : WorkflowCommand → String → Option String
text_input cmd name = elim (lookup name cmd.input_variables) [
  | none ↦ none
  | some j ↦ elim j [ text s ↦ some s | _ ↦ none ]
]

unfoldable pub number_input : WorkflowCommand → String → Option ℕ
number_input cmd name = elim (lookup name cmd.input_variables) [
  | none ↦ none
  | some j ↦ elim j [ number n ↦ some n | _ ↦ none ]
]

unfoldable pub object_input : WorkflowCommand → String → Option Fields
object_input cmd name = elim (lookup name cmd.input_variables) [
  | none ↦ none
  | some j ↦ elim j [ object fs ↦ some fs | _ ↦ none ]
]

-- The loop that keeps the texts of an object. The keys of a Go map differ, so no order shows.
unfoldable pub texts_of : Fields → Map String
texts_of end = []
texts_of (field k (text s) fs) = (k, s) ∷ texts_of fs
texts_of (field k _ fs) = texts_of fs

-- A finished response: it repeats the command's identifiers, and is either a success without an
-- error code or an error with one and without output.
pub record IsAnswer {V : Type 0} (cmd : WorkflowCommand) (resp : ServiceResponse V) : Type 0 where
  pub same_command : resp.command_id ≡ cmd.command_id
  pub same_instance : resp.instance_id ≡ cmd.instance_id
  pub same_token : resp.token_id ≡ cmd.token_id
  pub same_node : resp.node_id ≡ cmd.node_id
  pub settled :
      ((resp.status ≡ ResponseStatus.success) × (resp.error_code ≡ ""))
      ⊎ ((resp.status ≡ ResponseStatus.error)
          × (resp.error_code ≢ "")
          × (resp.output_variables ≡ []))

-- A guard: an early return, or the rest of the handler with the value.
unfoldable pub require : {A R : Type 0} → Option A → R → (A → R) → R
require none bail rest = bail
require (some a) bail rest = rest a

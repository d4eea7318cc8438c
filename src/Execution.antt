-- ===== src/Execution.antt =====
-- What executing a node gives: `ExecutionResult` and `ExecutionError` of
-- engine/internal/core/statemachine/model.go.
use proctssor.Prelude.{String, Bool, false, [], Option, none}
use proctssor.Token.{Variables}

pub record ExecutionError : Type 0 where
  pub code : String
  pub message : String
  pub node_id : String

pub record ExecutionResult : Type 0 where
  pub next_node_id : String
  pub variables : Variables
  pub error : Option ExecutionError
  pub await : Bool
  pub await_type : String
  pub message_ref : String
  pub correlation_key : String
  pub suspended : Bool
  pub terminated : Bool

-- The zero value, on which the literals of the source are built.
abbrev pub zero_result : ExecutionResult
zero_result = record {
  next_node_id = "";
  variables = [];
  error = none;
  await = false;
  await_type = "";
  message_ref = "";
  correlation_key = "";
  suspended = false;
  terminated = false;
}

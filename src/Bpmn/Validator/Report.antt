-- ===== src/Bpmn/Validator/Report.antt =====
-- Errors and warnings of the validator: engine/internal/core/bpmn/validator.go. The texts are constructors.
use proctssor.Prelude.{ℕ, String, Bool, List, [], ◌∷◌, ◌++◌, if◌then◌else◌}

pub data Severity : Type 0 where
  error warning : Severity

pub data Message : Type 0 where
  no_id not_executable no_elements no_start no_end : Message
  many_starts : ℕ → Message
  no_outgoing no_incoming unconnected no_flows no_default unbalanced : Message
  no_source no_target self_loop : Message
  unknown_source unknown_target : String → Message
  no_implementation no_script no_message_ref : Message
  no_attachment no_definition no_time no_error_ref incoming_non_interrupting : Message
  invalid_attachment : String → Message
  many_timers many_errors : String → ℕ → Message

pub record ValidationError : Type 0 where
  pub element_id : String
  pub element_name : String
  pub message : Message
  pub severity : Severity

-- `addError` and `addWarning` under a condition.
unfoldable pub error_if : Bool → String → String → Message → List ValidationError
error_if wrong id name message =
    if wrong
    then record {
      element_id = id;
      element_name = name;
      message = message;
      severity = Severity.error;
    }
      ∷ []
    else []

unfoldable pub warning_if : Bool → String → String → Message → List ValidationError
warning_if odd id name message =
    if odd
    then record {
      element_id = id;
      element_name = name;
      message = message;
      severity = Severity.warning;
    }
      ∷ []
    else []

-- A loop over a slice that appends.
abbrev pub concat_map {ℓ} :
    {A : Type ℓ} → (A → List ValidationError) → List A → List ValidationError
concat_map f [] = []
concat_map f (x ∷ xs) = f x ++ concat_map f xs

-- ===== src/Bpmn/Validator.antt =====
-- The validator of processes: engine/internal/core/bpmn/validator.go. A check gives the errors and
-- warnings that it appends, in their order. The process is not nil.
pub mod Report
pub mod Checks
pub mod Attached
pub mod Sound
use proctssor.Prelude.{◌+◌, ◌==◌, Bool, true, false, not, List, ◌++◌, is_empty, select}
use proctssor.Bpmn.Process.{Process}
use proctssor.Bpmn.Validator.Report.{
  Severity, no_id, not_executable, no_elements, ValidationError, error_if, warning_if, concat_map,
}
use proctssor.Bpmn.Validator.Checks.{
  validate_events, validate_sequence_flows, validate_gateway, validate_task,
}
use proctssor.Bpmn.Validator.Attached.{validate_boundary_events}

-- All that `validate` appends, errors and warnings.
unfoldable pub problems : Process → List ValidationError
problems p =
    error_if (p.id == "") p.id p.name no_id
    ++ (warning_if (p.is_executable == "") p.id p.name not_executable
        ++ (error_if (is_empty p.flow_element) p.id p.name no_elements
            ++ (validate_events p
                ++ (validate_sequence_flows p
                    ++ (concat_map validate_gateway p.flow_element
                        ++ (concat_map validate_task p.flow_element
                            ++ validate_boundary_events p))))))

abbrev pub is_error : ValidationError → Bool
is_error e = elim e.severity [ Severity.error ↦ true | Severity.warning ↦ false ]

-- The errors that `ValidateWithWarnings` returns, its warnings, and what `Validate` returns.
unfoldable pub errors_of : Process → List ValidationError
errors_of p = select is_error (problems p)

unfoldable pub warnings_of : Process → List ValidationError
warnings_of p = select (λ e. not (is_error e)) (problems p)

unfoldable pub validate : Process → List ValidationError
validate p = errors_of p ++ warnings_of p

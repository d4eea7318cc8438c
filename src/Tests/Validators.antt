-- ===== src/Tests/Validators.antt =====
-- The validator on a payment that may run late, and on a process without errors that cannot start.
use proctssor.Prelude.{String, ◌≡◌, refl, [], ◌∷◌, insert, lookup, none, some, err}
use proctssor.Bpmn.Elements.{SequenceFlow}
use proctssor.Bpmn.Process.{
  get_id, is_interrupting, get_element_type, Process, start_event, end_event, service_task,
  boundary_event,
}
use proctssor.Bpmn.Graph.{build_graph}
use proctssor.Bpmn.Graph.Queries.{no_start_event, get_start_node}
use proctssor.Bpmn.Validator.{problems, errors_of}
use proctssor.Bpmn.Validator.Report.{error_if, warning_if}
use proctssor.Bpmn.Validator.Checks.{
  validate_events, validate_flow, check_orphan, validate_sequence_flows, validate_gateway,
  validate_task,
}
use proctssor.Bpmn.Validator.Attached.{check_boundary, tally, repeated, validate_boundary_events}
use proctssor.Tests.Samples.{task, late}

abbrev flow : String → String → String → SequenceFlow
flow id source target = record {
  id = id;
  name = "";
  source_ref = source;
  target_ref = target;
  condition_expression = none;
}

abbrev payment : String → Process
payment start = record {
  id = "payment";
  name = "";
  is_executable = "true";
  is_closed = "";
  process_type = "";
  flow_element =
      some (start_event (record { id = start; name = ""; outgoing = "f1" ∷ [] }))
      ∷ none
      ∷ some (service_task (record (task "pay" "") { incoming = "f1" ∷ []; outgoing = "f2" ∷ [] }))
      ∷ some (boundary_event (record late { outgoing = "f3" ∷ [] }))
      ∷ some (end_event (record { id = "done"; name = ""; incoming = "f2" ∷ "f3" ∷ [] }))
      ∷ [];
  sequence_flow = flow "f2" "pay" "done" ∷ flow "f3" "late" "done" ∷ [];
}

-- A start event without an identifier raises no error, and the graph has no start node.
nameless-errors : errors_of (payment "") ≡ []
unfolding errors_of problems error_if warning_if validate_events validate_flow check_orphan
    validate_sequence_flows validate_gateway validate_task check_boundary tally repeated
    validate_boundary_events get_id is_interrupting get_element_type insert lookup
nameless-errors = refl

nameless-start : get_start_node (build_graph (payment "")) ≡ err no_start_event
unfolding get_start_node build_graph lookup get_id insert
nameless-start = refl

-- ===== src/Bpmn/Validator/Sound.antt =====
-- What a process without errors promises to the graph: engine/internal/core/bpmn/validator.go and
-- graph.go.
use proctssor.Prelude.{◌≡◌, ◌≢◌, true, false, ◌||◌, List, [], is_empty, is_some, select, All}
use proctssor.Bpmn.Elements.{StartEvent, BoundaryEvent, SequenceFlow}
use proctssor.Bpmn.Process.{Process}
use proctssor.Bpmn.Graph.{Graph, build_graph}
use proctssor.Bpmn.Graph.Queries.{get_element_by_id}
use proctssor.Bpmn.Validator.{is_error}
use proctssor.Bpmn.Validator.Report.{ValidationError}
use proctssor.Bpmn.Validator.Checks.{start_events, end_events}
use proctssor.Bpmn.Validator.Attached.{is_target, boundary_events}

-- No errors, but perhaps warnings.
abbrev IsClean : List ValidationError → Type 0
IsClean l = select is_error l ≡ []

-- A flow with an identifier, between two different nodes of the graph.
abbrev pub IsProper : Graph → SequenceFlow → Type 0
IsProper g flow =
    (flow.id ≢ "")
    × (is_some (get_element_by_id g flow.source_ref) ≡ true)
    × (is_some (get_element_by_id g flow.target_ref) ≡ true)
    × (flow.source_ref ≢ flow.target_ref)

-- A boundary event of an activity of the graph that waits for something and leads somewhere.
abbrev pub IsAttached : Process → BoundaryEvent → Type 0
IsAttached p be =
    (is_target p.flow_element be.attached_to_ref ≡ true)
    × (is_some (get_element_by_id (build_graph p) be.attached_to_ref) ≡ true)
    × ((is_some be.timer_event_definition || is_some be.error_event_definition) ≡ true)
    × (is_empty be.outgoing ≡ false)

-- What a process without errors promises.
pub record IsValidated (p : Process) : Type 0 where
  pub flows : All (IsProper (build_graph p)) p.sequence_flow
  pub started : is_empty (start_events p.flow_element) ≡ false
  pub ended : is_empty (end_events p.flow_element) ≡ false
  pub leads : All (λ (e : StartEvent). is_empty e.outgoing ≡ false) (start_events p.flow_element)
  pub attached : All (IsAttached p) (boundary_events p.flow_element)

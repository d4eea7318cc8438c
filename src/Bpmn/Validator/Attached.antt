-- ===== src/Bpmn/Validator/Attached.antt =====
-- The checks of boundary events: engine/internal/core/bpmn/validator.go.
use proctssor.Prelude.{
  ℕ, ◌+◌, String, ◌==◌, Bool, true, false, not, ◌&&◌, List, [], ◌∷◌, ◌++◌, Map, lookup, insert,
  Option, none, some, if◌then◌else◌, is_empty, is_some, ltb, exists,
}
use proctssor.Bpmn.Elements.{BoundaryEvent, TimerEventDefinition}
use proctssor.Bpmn.Process.{
  FlowElement, FlowElementType, Process, get_id, get_element_type, is_interrupting,
}
use proctssor.Bpmn.Validator.Report.{
  Message, no_outgoing, no_attachment, no_definition, no_time, no_error_ref,
  incoming_non_interrupting, invalid_attachment, many_timers, many_errors, ValidationError,
  error_if, warning_if, concat_map,
}

-- The element types that a boundary event may be attached to.
abbrev pub is_activity : FlowElementType → Bool
is_activity FlowElementType.user_task = true
is_activity FlowElementType.service_task = true
is_activity FlowElementType.script_task = true
is_activity FlowElementType.manual_task = true
is_activity FlowElementType.receive_task = true
is_activity FlowElementType.sub_process = true
is_activity _ = false

-- `validTargets[id]`.
abbrev pub is_target : List (Option FlowElement) → String → Bool
is_target elems id =
    exists
      (λ (o : Option FlowElement). elim o [
        | none ↦ false
        | some e ↦ is_activity (get_element_type e) && get_id e == id
      ])
      elems

abbrev pub has_no_time : TimerEventDefinition → Bool
has_no_time t = t.time_duration == "" && t.time_date == "" && t.time_cycle == ""

-- One boundary event in the second loop of `validateBoundaryEvents`.
unfoldable pub check_boundary : List (Option FlowElement) → BoundaryEvent → List ValidationError
check_boundary elems be =
    (if be.attached_to_ref == ""
      then error_if true be.id be.name no_attachment
      else error_if (not (is_target elems be.attached_to_ref)) be.id be.name
          (invalid_attachment be.attached_to_ref))
    ++ (error_if
          (not (is_some be.timer_event_definition) && not (is_some be.error_event_definition)) be.id
          be.name no_definition
        ++ (error_if (elim be.timer_event_definition [ none ↦ false | some t ↦ has_no_time t ])
              be.id be.name no_time
            ++ (warning_if
                  (elim be.error_event_definition [ none ↦ false | some d ↦ d.error_ref == "" ])
                  be.id be.name no_error_ref
                ++ (error_if (is_empty be.outgoing) be.id be.name no_outgoing
                    ++ warning_if (not (is_empty be.incoming) && not (is_interrupting be)) be.id
                        be.name incoming_non_interrupting))))

abbrev pub boundary_event_of : Option FlowElement → List BoundaryEvent
boundary_event_of (some (FlowElement.boundary_event be)) = be ∷ []
boundary_event_of _ = []

abbrev pub boundary_events : List (Option FlowElement) → List BoundaryEvent
boundary_events [] = []
boundary_events (o ∷ elems) = boundary_event_of o ++ boundary_events elems

-- `m[key]++` for each event of the kind that interrupts.
unfoldable pub tally : (BoundaryEvent → Bool) → List BoundaryEvent → Map ℕ → Map ℕ
tally kind [] m = m
tally kind (be ∷ events) m =
    let seen : ℕ = elim (lookup be.attached_to_ref m) [ none ↦ 0 | some n ↦ n ] in
    tally kind events
      (if is_interrupting be && kind be then insert be.attached_to_ref (seen + 1) m else m)

unfoldable pub repeated : (String → ℕ → Message) → Map ℕ → List ValidationError
repeated message [] = []
repeated message ((id, n) ∷ m) = warning_if (ltb 1 n) "" "" (message id n) ++ repeated message m

-- `validateBoundaryEvents`. The source ranges over the two tallies in no fixed order.
unfoldable pub validate_boundary_events : Process → List ValidationError
validate_boundary_events p =
    let events = boundary_events p.flow_element in
    concat_map (check_boundary p.flow_element) events
    ++ (repeated many_timers (tally (λ be. is_some be.timer_event_definition) events [])
        ++ repeated many_errors (tally (λ be. is_some be.error_event_definition) events []))

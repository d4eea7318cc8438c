-- ===== src/Bpmn/Validator/Checks.antt =====
-- The checks of events, flows, gateways and tasks: engine/internal/core/bpmn/validator.go. The map of identifiers is a test.
use proctssor.Prelude.{
  String, ◌==◌, Bool, true, false, not, ◌&&◌, ◌||◌, List, [], ◌∷◌, ◌++◌, Option, none, some,
  if◌then◌else◌, is_empty, length, leb, ltb, exists,
}
use proctssor.Bpmn.Elements.{StartEvent, EndEvent, ServiceTask, ReceiveTask, SendTask, SequenceFlow}
use proctssor.Bpmn.Process.{FlowElement, Process, get_id, get_name}
use proctssor.Bpmn.Validator.Report.{
  Message, no_id, no_start, no_end, many_starts, no_outgoing, no_incoming, unconnected, no_flows,
  no_default, unbalanced, no_source, no_target, self_loop, unknown_source, unknown_target,
  no_implementation, no_script, no_message_ref, ValidationError, error_if, warning_if, concat_map,
}

abbrev pub start_events : List (Option FlowElement) → List StartEvent
start_events [] = []
start_events (some (FlowElement.start_event e) ∷ elems) = e ∷ start_events elems
start_events (_ ∷ elems) = start_events elems

abbrev pub end_events : List (Option FlowElement) → List EndEvent
end_events [] = []
end_events (some (FlowElement.end_event e) ∷ elems) = e ∷ end_events elems
end_events (_ ∷ elems) = end_events elems

unfoldable pub validate_events : Process → List ValidationError
validate_events p =
    let starts = start_events p.flow_element in
    let ends = end_events p.flow_element in
    error_if (is_empty starts) p.id p.name no_start
    ++ (warning_if (ltb 1 (length starts)) p.id p.name (many_starts (length starts))
        ++ (error_if (is_empty ends) p.id p.name no_end
            ++ (concat_map (λ e. error_if (is_empty e.outgoing) e.id e.name no_outgoing) starts
                ++ concat_map (λ e. error_if (is_empty e.incoming) e.id e.name no_incoming) ends)))

-- `elementIDs[id]`: some element has the identifier, which is not empty.
abbrev pub is_known : List (Option FlowElement) → String → Bool
is_known elems id =
    exists
      (λ (o : Option FlowElement). elim o [
        | none ↦ false
        | some e ↦ not (get_id e == "") && get_id e == id
      ])
      elems

unfoldable pub validate_flow : List (Option FlowElement) → SequenceFlow → List ValidationError
validate_flow elems flow =
    let reference = λ (id : String) (missing unknown : Message).
      if id == ""
      then error_if true flow.id flow.name missing
      else error_if (not (is_known elems id)) flow.id flow.name unknown in
    if flow.id == ""
    then error_if true flow.id flow.name no_id
    else reference flow.source_ref no_source (unknown_source flow.source_ref)
      ++ (reference flow.target_ref no_target (unknown_target flow.target_ref)
          ++ error_if (flow.source_ref == flow.target_ref && not (flow.source_ref == "")) flow.id
              flow.name self_loop)

-- An element that no flow touches.
unfoldable pub check_orphan : List SequenceFlow → Option FlowElement → List ValidationError
check_orphan flows none = []
check_orphan flows (some e) =
    let connected =
      exists (λ flow. flow.source_ref == get_id e || flow.target_ref == get_id e) flows in
    warning_if (not (get_id e == "") && not connected) (get_id e) (get_name e) unconnected

unfoldable pub validate_sequence_flows : Process → List ValidationError
validate_sequence_flows p =
    concat_map (validate_flow p.flow_element) p.sequence_flow
    ++ concat_map (check_orphan p.sequence_flow) p.flow_element

-- One round of `validateGateways`. Each gateway has its own text for the missing default flow.
unfoldable pub validate_gateway : Option FlowElement → List ValidationError
validate_gateway (some (FlowElement.exclusive_gateway g)) =
    error_if (is_empty g.incoming && is_empty g.outgoing) g.id g.name no_flows
    ++ warning_if (ltb 1 (length g.outgoing) && g.default == "") g.id g.name no_default
validate_gateway (some (FlowElement.inclusive_gateway g)) =
    error_if (is_empty g.incoming && is_empty g.outgoing) g.id g.name no_flows
    ++ warning_if (ltb 0 (length g.outgoing) && g.default == "") g.id g.name no_default
validate_gateway (some (FlowElement.parallel_gateway g)) =
    let same =
      leb (length g.incoming) (length g.outgoing) && leb (length g.outgoing) (length g.incoming) in
    error_if (is_empty g.incoming && is_empty g.outgoing) g.id g.name no_flows
    ++ warning_if (not same && not (is_empty g.incoming) && not (is_empty g.outgoing)) g.id g.name
        unbalanced
validate_gateway _ = []

-- The errors that the checks of all tasks share.
abbrev pub unlinked : String → String → List String → List String → List ValidationError
unlinked id name incoming outgoing =
    error_if (is_empty outgoing) id name no_outgoing
    ++ error_if (is_empty incoming) id name no_incoming

abbrev pub has_implementation : ServiceTask → Bool
has_implementation t =
    not (t.implementation == "")
    || not (t.class == "")
    || not (t.expression == "")
    || not (t.delegate_expression == "")
    || not (t.topic == "")
    || not (t.type == "")

abbrev pub validate_receive_task : ReceiveTask → List ValidationError
validate_receive_task t =
    unlinked t.id t.name t.incoming t.outgoing
    ++ warning_if (t.message_ref == "") t.id t.name no_message_ref

abbrev pub validate_send_task : SendTask → List ValidationError
validate_send_task t =
    unlinked t.id t.name t.incoming t.outgoing
    ++ warning_if (t.message_ref == "") t.id t.name no_message_ref

-- One round of `validateTasks`.
unfoldable pub validate_task : Option FlowElement → List ValidationError
validate_task (some (FlowElement.user_task t)) = unlinked t.id t.name t.incoming t.outgoing
validate_task (some (FlowElement.service_task t)) =
    unlinked t.id t.name t.incoming t.outgoing
    ++ warning_if (not (has_implementation t)) t.id t.name no_implementation
validate_task (some (FlowElement.script_task t)) =
    unlinked t.id t.name t.incoming t.outgoing
    ++ warning_if (t.script == "" && t.resource == "") t.id t.name no_script
validate_task (some (FlowElement.receive_task t)) = validate_receive_task t
validate_task (some (FlowElement.send_task t)) = validate_send_task t
validate_task _ = []

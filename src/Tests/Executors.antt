-- ===== src/Tests/Executors.antt =====
-- The theorems on the executor, tried on a publisher that fails once and on a small process.
use proctssor.Prelude.{◌≡◌, refl, [], none, some, All, lookup, insert}
use proctssor.Bpmn.Process.{get_id}
use proctssor.Bpmn.Graph.{build_graph, at, append_at}
use proctssor.Bpmn.Graph.Queries.{get_element_by_id, evaluate_exclusive_gateway}
use proctssor.Executor.Publisher.{
  CommandType, WorkflowCommand, Publisher, prepare, publish_with_retry,
}
use proctssor.Executor.Delegate.{parse, trim_space, span_word}
use proctssor.Executor.Node.{execute_exclusive_gateway}
use proctssor.Executor.Retry.{Attempted, publish_with_retry_lem}
use proctssor.Executor.Gateways.{IsUsual, towards, execute_exclusive_gateway_lem}
use proctssor.Tests.Samples.{tidy, receipt}

delegate_read : parse " ${jira.create_2}\n" ≡ some ("jira", "create_2")
unfolding parse trim_space span_word
delegate_read = refl

delegate_refused : parse "${jira}" ≡ none
unfolding parse trim_space span_word
delegate_refused = refl

-- The transport refuses the first attempt.
abbrev shaky : Publisher
shaky = record { timeout = 30; transport = λ sent cmd. elim sent [ [] ↦ some "down" | _ ↦ none ] }

abbrev command : WorkflowCommand
command = record {
  command_id = "";
  command_type = CommandType.service_task;
  instance_id = "i";
  token_id = "";
  node_id = "";
  service_name = "jira";
  operation = "create";
  input_variables = receipt;
  created_at = some 1;
  expires_at = none;
  retry_count = 0;
  max_retries = 3;
}

publish_with_retry_lem_example :
    let (fault, sent) = publish_with_retry shaky [] (λ j. "c") (λ j. j) 0 3 command in
    Attempted shaky [] 3 (prepare 30 "c" 0 command) fault sent
publish_with_retry_lem_example =
    publish_with_retry_lem shaky [] (λ j. "c") (λ j. j) 0 2 command (λ j e. cc)

usual : All (IsUsual (build_graph tidy)) (build_graph tidy).sequence_flows
unfolding build_graph lookup insert at append_at get_element_by_id get_id
usual = ((refl, refl), ((refl, refl), ((refl, refl), ((refl, refl), tt))))

execute_exclusive_gateway_lem_example :
    let g = build_graph tidy in
    execute_exclusive_gateway g "choice" receipt
    ≡ towards "choice" receipt (evaluate_exclusive_gateway g "choice")
execute_exclusive_gateway_lem_example = execute_exclusive_gateway_lem tidy "choice" receipt usual

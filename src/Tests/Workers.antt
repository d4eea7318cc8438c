-- ===== src/Tests/Workers.antt =====
-- Commands to the worker services.
use proctssor.Prelude.{
  ℕ, ℤ, String, ◌≡◌, refl, ap, subst, true, false, [], ◌∷◌, Map, lookup, none, some, Result, ok,
  err,
}
use proctssor.Workers.{
  Json, WorkflowCommand, ResponseStatus, ServiceResponse, IsAnswer, text_input, number_input,
  require,
}
use proctssor.Workers.Consumer.{Worker, handle_message}
use proctssor.Workers.Consumer.Replies.{Replied, handle_message_lem}
use proctssor.Workers.Vault.{MemoryStorage, metadata_of}
use proctssor.Workers.Vault as Vault
use proctssor.Workers.Vault.Answers.{handle_command-IsAnswer}
use proctssor.Workers.Vault.Refinement.{view, serve, meanings, serve_refines, get_after_set}
use proctssor.Workers.Gitlab.{MergeRequest, GitlabApi, get_merge_request}
use proctssor.Workers.Gitlab.Calls.{Outcome, handle_command_lem}
use proctssor.Workers.Gitlab.Handler as Gitlab
use proctssor.Workers.Gitlab.Service as Service
use proctssor.Workers.Jira.{JiraClient, World}
use proctssor.Workers.Jira.Requests.{Unposted}
use proctssor.Workers.Jira.Commands as Commands
use proctssor.Workers.Jira.Commands.{serve-Unposted, handle_command-Posts}
use proctssor.Workers.Jira.Noninterference.{handle_command-same}
use proctssor.Workers.Jira.Handler as Jira
use proctssor.Workers.Notification as Notification
use proctssor.Workers.Notification.{drop_text, try_webhook}

abbrev command : String → Map Json → WorkflowCommand
command operation inputs = record {
  command_id = "c1";
  command_type = "execute";
  instance_id = "order";
  token_id = "t1";
  node_id = "n1";
  service_name = "worker";
  operation = operation;
  input_variables = inputs;
  created_at = 1;
  expires_at = 9;
  retry_count = 0;
  max_retries = 3;
}

abbrev clock : ℕ → ℕ
clock n = n

abbrev store : WorkflowCommand
store = command "set_secret" (("key", Json.text "db") ∷ ("value", Json.text "pw") ∷ [])

abbrev fetch : WorkflowCommand
fetch = command "get_secret" (("key", Json.text "db") ∷ [])

abbrev forget : WorkflowCommand
forget = command "delete_secret" (("key", Json.text "db") ∷ [])

serve_refines_example :
    view (serve "kv" ((clock, store) ∷ (clock, fetch) ∷ (clock, forget) ∷ []) [])
    ≡ meanings "kv" ((clock, store) ∷ (clock, fetch) ∷ (clock, forget) ∷ []) (view [])
serve_refines_example =
    serve_refines "kv" ((clock, store) ∷ (clock, fetch) ∷ (clock, forget) ∷ []) []

get_after_set_example :
    let s = (Vault.handle_command "kv" clock [] store).1 in
    let answer = (Vault.handle_command "kv" clock s fetch).0 in
    (answer.status ≡ ResponseStatus.success)
    × (lookup "value" answer.output_variables ≡ some (Vault.text "pw"))
    × (lookup "metadata" answer.output_variables ≡ some (Vault.texts (metadata_of store)))
unfolding text_input lookup
get_after_set_example =
    get_after_set "kv" clock clock [] store fetch "db" "pw" refl refl refl refl refl

-- The vault service, with messages that are keys to fetch; the empty one is no command.
abbrev vault_worker : Worker Vault.Output MemoryStorage String
vault_worker = record {
  decode = λ key. (command "get_secret" (("key", Json.text key) ∷ []), none);
  encodes = λ resp. true;
  handle = λ s cmd.
      (ok (Vault.handle_command "kv" clock s cmd).0, (Vault.handle_command "kv" clock s cmd).1);
}

abbrev answer_or :
    {V : Type 0} → ServiceResponse V → Result String (ServiceResponse V) → ServiceResponse V
answer_or default r = elim r [ ok resp ↦ resp | err e ↦ default ]

vault_worker-answers :
    (s : MemoryStorage) (cmd : WorkflowCommand) (resp : Vault.Response)
    → (vault_worker.handle s cmd).0 ≡ ok resp
    → IsAnswer cmd resp
vault_worker-answers s cmd resp e =
    subst (IsAnswer cmd) (ap (answer_or resp) e) (handle_command-IsAnswer "kv" cmd clock s)

handle_message_lem_example :
    Replied vault_worker
      (λ resp. refl)
      (vault_worker.decode "db").0
      (handle_message vault_worker 7 [] "db").0
handle_message_lem_example =
    handle_message_lem vault_worker (λ resp. refl) vault_worker-answers 7 [] "db"

-- A GitLab with one merge request, which is not merged.
abbrev draft : MergeRequest
draft = record {
  id = 70;
  iid = 7;
  title = "Draft";
  state = "opened";
  web_url = "https://git/7";
  source_branch = "fix";
  target_branch = "main";
  merged_by = none;
  merged_at = none;
  has_conflicts = false;
}

abbrev gitlab : GitlabApi
gitlab = record {
  project = λ t call. err "404";
  merge_request = λ t call. ok draft;
  issue = λ t call. err "404";
  pipeline = λ t call. err "404";
  statuses = λ t call. ok [];
  accepted = λ t call. none;
}

abbrev to_int : ℕ → ℤ
to_int n = ℤ.pos n

abbrev show_mr : WorkflowCommand
show_mr =
    command "get_merge_request" (("project_id", Json.text "app") ∷ ("mr_iid", Json.number 7) ∷ [])

handle_command_lem_example :
    Outcome to_int gitlab show_mr 0 [] (Service.handle_command to_int clock gitlab [] show_mr)
handle_command_lem_example = handle_command_lem to_int gitlab show_mr [] clock

show_mr-panics : Service.handle_command to_int clock gitlab [] show_mr ≡ none
unfolding Service.handle_command Service.dispatch Service.operation_of
    Gitlab.handle_get_merge_request Gitlab.show_merge_request get_merge_request require text_input
    number_input lookup
show_mr-panics = refl

-- A Jira that accepts whatever it is asked.
abbrev jira : World
jira = record {
  formats = record { int_text = λ n. "1"; float_text = λ x. "1.0" };
  base64 = λ s. s;
  equal_fold = λ s t. false;
  refuses = λ method url. none;
  send = λ t request. ok (record { status = 201; body = ok "{}" });
}

abbrev client : JiraClient
client = record { base_url = "https://jira"; username = "bot"; token = "secret"; connected = true }

abbrev file_issue : WorkflowCommand
file_issue =
    command "create_issue" (("project_key", Json.text "APP") ∷ ("summary", Json.text "Broken") ∷ [])

abbrev assign : WorkflowCommand
assign =
    command "assign_issue" (("issue_key", Json.text "APP-1") ∷ ("assignee", Json.text "ann") ∷ [])

serve-Unposted_example :
    Unposted (Commands.serve to_int jira client ((clock, file_issue) ∷ (clock, assign) ∷ []) [])
unfolding Unposted
serve-Unposted_example =
    serve-Unposted to_int jira client ((clock, file_issue) ∷ (clock, assign) ∷ []) [] tt

handle_command-same_example :
    Jira.handle_command to_int clock jira client [] assign
    ≡ Jira.handle_command to_int clock
        (record jira { send = λ t request. ok (record { status = 404; body = ok "not found" }) })
        client
        []
        assign
handle_command-same_example =
    handle_command-same jira (λ t request. ok (record { status = 404; body = ok "not found" }))
      (λ t request. refl) to_int clock client [] assign

-- A server that fails at first.
abbrev flaky : Notification.World
flaky = record {
  marshal = λ fields. ok "{}";
  marshal_message = λ message channel. ok "{}";
  canonical = λ name. name;
  status_text = λ n. "500";
  count_text = λ n. "3";
  refuses = λ method url. none;
  send = λ t request. elim t [ [] ↦ ok (500, "busy") | _ ∷ _ ↦ ok (200, "done") ];
  reads = λ t request. 2;
}

-- The second attempt is made with a part of the body.
cut_at_last :
    (try_webhook flaky "POST" "https://hook" [] 3 (some "paid") none []).1
    ≡ record { method = "POST"; url = "https://hook"; headers = []; body = some "paid" }
      ∷ record { method = "POST"; url = "https://hook"; headers = []; body = some "id" }
      ∷ []
unfolding try_webhook drop_text
cut_at_last = refl

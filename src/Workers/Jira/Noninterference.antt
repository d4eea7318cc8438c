-- ===== src/Workers/Jira/Noninterference.antt =====
-- What a command comes to whatever Jira's answers say: jira-service/internal/service/handler.go.
use proctssor.Prelude.{
  ℕ, ℤ, String, ◌≡◌, refl, ◌∙◌, ap, Bool, List, Map, Option, none, some, Result, ok, err,
  if◌then◌else◌,
}
use mathlib.Core.Path.{fun_ext}
use proctssor.Workers.{WorkflowCommand, new_response, require, text_input}
use proctssor.Workers.Jira.{Transition, JiraClient, Request, Requests, HttpResponse, World}
use proctssor.Workers.Jira.Client.{get_transitions, transition_among, transition_by_name}
use proctssor.Workers.Jira.Handler.{
  Output, Response, conclude, conclude_fault, handle_create_issue, handle_get_issue, updatable,
  handle_update_issue, transition_to, handle_transition_issue, handle_search_issues,
  handle_add_comment, handle_assign_issue, handle_health_check, handle_unknown_operation, Operation,
  issue_create, issue_get, issue_update, issue_transition, issues_search, comment_add, issue_assign,
  health_check, unknown, operation_of, dispatch, handle_command,
}
use proctssor.Workers.Jira.Blind.{
  shape, other, create_issue-same, get_issue-same, update_issue-same, transition_by_id-same,
  transition_named-same, get_transitions-same, search_issues-same, add_comment-same,
  assign_issue-same,
}

-- Two ways on from a guard that agree.
require-same :
    {A R : Type 0} (o : Option A) (bail : R) (rest rest' : A → R)
    → ((a : A) → rest a ≡ rest' a)
    → require o bail rest ≡ require o bail rest'
require-same o bail rest rest' same = ap (require o bail) (fun_ext same)

conclude-same :
    {A : Type 0} (resp : Response) (what : String) (f : A → Map Output)
    {x y : Result String A × Requests}
    → x ≡ y
    → conclude resp what x f ≡ conclude resp what y f
conclude-same resp what f e = ap (λ x. conclude resp what x f) e

conclude_fault-same :
    (resp : Response) (what : String) (outputs : Map Output) {x y : Option String × Requests}
    → x ≡ y
    → conclude_fault resp what x outputs ≡ conclude_fault resp what y outputs
conclude_fault-same resp what outputs e = ap (λ x. conclude_fault resp what x outputs) e

if-same :
    {A : Type 0} (b : Bool) (z : A) {x y : A} → x ≡ y → (if b then x else z) ≡ (if b then y else z)
if-same b z e = ap (λ x. if b then x else z) e

module _ (w : World) (send : Requests → Request → Result String HttpResponse)
    (same : (t : Requests) (request : Request)
      → shape (w.send t request) ≡ shape (send t request)) where
  transition_among-same :
      (c : JiraClient) (key name : String) (x : Result String (List Transition) × Requests)
      → transition_among w c key name x ≡ transition_among (other w send same) c key name x
  unfolding transition_among
  transition_among-same c key name (err e, t) = refl
  transition_among-same c key name (ok transitions, t) =
      transition_named-same w send same c t key name transitions

  transition_by_name-same :
      (c : JiraClient) (t : Requests) (key name : String)
      → transition_by_name w c t key name ≡ transition_by_name (other w send same) c t key name
  unfolding transition_by_name
  transition_by_name-same c t key name =
      transition_among-same c key name (get_transitions w c t key)
      ∙ ap (transition_among (other w send same) c key name)
          (get_transitions-same w send same c t key)

  module _ (to_int : ℕ → ℤ) (c : JiraClient) (t : Requests) (cmd : WorkflowCommand)
      (resp : Response) where
    handle_create_issue-same :
        handle_create_issue to_int w c t cmd resp
        ≡ handle_create_issue to_int (other w send same) c t cmd resp
    unfolding handle_create_issue
    handle_create_issue-same = require-same (text_input cmd "project_key") _ _ _ λ project_key.
        require-same (text_input cmd "summary") _ _ _ λ summary.
          conclude-same resp _ _ (create_issue-same w send same c t project_key summary _ _ _)

    transition_to-same :
        (key : String) (id name : Option String)
        → transition_to to_int w c t cmd resp key id name
          ≡ transition_to to_int (other w send same) c t cmd resp key id name
    unfolding transition_to
    transition_to-same key none none = refl
    transition_to-same key none (some name) =
        conclude_fault-same resp _ _ (transition_by_name-same c t key name)
    transition_to-same key (some id) name =
        conclude_fault-same resp _ _ (transition_by_id-same w send same c t key id)

    dispatch-same :
        (op : Operation) (now : ℕ → ℕ)
        → dispatch op to_int now w c t cmd resp
          ≡ dispatch op to_int now (other w send same) c t cmd resp
    unfolding dispatch handle_get_issue handle_update_issue handle_transition_issue
        handle_search_issues handle_add_comment handle_assign_issue handle_health_check
        handle_unknown_operation
    dispatch-same issue_create now = handle_create_issue-same
    dispatch-same issue_get now =
        require-same (text_input cmd "issue_key") _ _ _
          λ key. conclude-same resp _ _ (get_issue-same w send same c t key)
    dispatch-same issue_update now = require-same (text_input cmd "issue_key") _ _ _ λ key.
        if-same
          (updatable (text_input cmd "summary") (text_input cmd "description")
            (text_input cmd "labels"))
          _ (conclude_fault-same resp _ _ (update_issue-same w send same c t key _ _ _))
    dispatch-same issue_transition now =
        require-same (text_input cmd "issue_key") _ _ _ λ key. transition_to-same key _ _
    dispatch-same issues_search now =
        require-same (text_input cmd "jql") _ _ _
          λ jql. conclude-same resp _ _ (search_issues-same w send same c t jql _)
    dispatch-same comment_add now = require-same (text_input cmd "issue_key") _ _ _ λ key.
        require-same (text_input cmd "body") _ _ _
          λ body. conclude_fault-same resp _ _ (add_comment-same w send same c t key body)
    dispatch-same issue_assign now = require-same (text_input cmd "issue_key") _ _ _ λ key.
        require-same (text_input cmd "assignee") _ _ _
          λ assignee. conclude_fault-same resp _ _ (assign_issue-same w send same c t key assignee)
    dispatch-same health_check now = refl
    dispatch-same unknown now = refl

  -- The service is blind to what Jira answers: if of two ways to answer every request the one fails
  -- where the other does, with the same error, or gives a body that cannot be read, then each command
  -- gets the same response and makes the same requests, whatever the statuses and the bodies are.
  pub handle_command-same :
      (to_int : ℕ → ℤ) (now : ℕ → ℕ) (c : JiraClient) (t : Requests) (cmd : WorkflowCommand)
      → handle_command to_int now w c t cmd
        ≡ handle_command to_int now (record w { send = send }) c t cmd
  unfolding handle_command
  handle_command-same to_int now c t cmd =
      dispatch-same to_int c t cmd (new_response (now 0) cmd) (operation_of cmd.operation) now

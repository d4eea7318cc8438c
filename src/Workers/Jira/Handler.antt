-- ===== src/Workers/Jira/Handler.antt =====
-- The handler of Jira commands: jira-service/internal/service/handler.go. `to_int` is the conversion
-- of a float64 to an int.
use Prim.Native.String.{◌++◌ as text_append}
use proctssor.Prelude.{
  ℕ, ℤ, String, ◌==◌, Bool, true, false, List, [], ◌∷◌, ◌++◌, Map, Option, none, some,
  if◌then◌else◌, Result, ok, err, length,
}
use proctssor.Workers.{
  WorkflowCommand, ServiceResponse, new_response, refuse, succeed, text_input, number_input,
  require,
}
use proctssor.Workers.Jira.{Issue, JiraClient, Requests, World}
use proctssor.Workers.Jira.Client.{
  create_issue, get_issue, update_issue, transition_by_id, transition_by_name, search_issues,
  add_comment, assign_issue,
}

pub data Output : Type 0 where
  text : String → Output
  flag : Bool → Output
  number : ℕ → Output
  issues : List Issue → Output

abbrev pub Response : Type 0
Response = ServiceResponse Output

abbrev pub missing : Response → String → Response
missing resp name = refuse resp "invalid_input" (text_append name " is required")

abbrev pub api_error : Response → String → String → Response
api_error resp what message = refuse resp "jira_api_error" (text_append what message)

-- `x, _ := ….(string)`: the empty text, where there is none.
abbrev pub or_empty : Option String → String
or_empty o = elim o [ none ↦ "" | some s ↦ s ]

-- The end of a handler: the client's error, or the outputs.
unfoldable pub conclude :
    {A : Type 0}
    → Response
    → String
    → Result String A × Requests
    → (A → Map Output)
    → Response × Requests
conclude resp what (r, t) outputs = elim r [
  | err e ↦ (api_error resp what e, t)
  | ok a ↦ (succeed resp (outputs a), t)
]

unfoldable pub conclude_fault :
    Response → String → Option String × Requests → Map Output → Response × Requests
conclude_fault resp what (fault, t) outputs = elim fault [
  | some e ↦ (api_error resp what e, t)
  | none ↦ (succeed resp outputs, t)
]

abbrev pub issue_outputs : Issue → Map Output
issue_outputs issue =
    ("issue_key", text issue.key)
    ∷ ("issue_id", text issue.id)
    ∷ ("issue_url", text issue.url)
    ∷ ("issue_summary", text issue.summary)
    ∷ ("issue_type", text issue.type_name)
    ∷ ("issue_status", text issue.status)
    ∷ []

-- Whether one of the three inputs is there.
abbrev pub updatable : Option String → Option String → Option String → Bool
updatable none none none = false
updatable _ _ _ = true

module _ (to_int : ℕ → ℤ) (w : World) (c : JiraClient) (t : Requests) (cmd : WorkflowCommand)
    (resp : Response) where
  unfoldable pub handle_create_issue : Response × Requests
  handle_create_issue =
      require (text_input cmd "project_key") (missing resp "project_key", t)
        λ project_key.
          require (text_input cmd "summary") (missing resp "summary", t)
            λ summary.
              let given = or_empty (text_input cmd "issue_type") in
              conclude resp "Failed to create issue: "
                (create_issue w c t project_key summary (or_empty (text_input cmd "description"))
                  (if given == "" then "Task" else given) (or_empty (text_input cmd "labels")))
                issue_outputs

  unfoldable pub handle_get_issue : Response × Requests
  handle_get_issue =
      require (text_input cmd "issue_key") (missing resp "issue_key", t)
        λ issue_key. conclude resp "Failed to get issue: " (get_issue w c t issue_key) λ issue.
          issue_outputs issue
          ++ ("issue_desc", text issue.description)
            ∷ ("assignee", text issue.assignee)
            ∷ ("reporter", text issue.reporter)
            ∷ ("created", text issue.created)
            ∷ ("updated", text issue.updated)
            ∷ []

  unfoldable pub handle_update_issue : Response × Requests
  handle_update_issue =
      require (text_input cmd "issue_key") (missing resp "issue_key", t)
        λ issue_key.
          let summary = text_input cmd "summary" in
          let description = text_input cmd "description" in
          let labels = text_input cmd "labels" in
          if updatable summary description labels
          then conclude_fault resp "Failed to update issue: "
              (update_issue w c t issue_key (or_empty summary) (or_empty description)
                (or_empty labels))
              (("issue_key", text issue_key) ∷ ("updated", flag true) ∷ [])
          else (
            refuse resp "invalid_input"
                "At least one of summary, description, or labels is required",
            t,
          )

  -- The call that `handleTransitionIssue` makes: an identifier goes before a name.
  unfoldable pub transition_to : String → Option String → Option String → Response × Requests
  transition_to issue_key none none = (missing resp "transition_id or transition_name", t)
  transition_to issue_key none (some name) =
      conclude_fault resp "Failed to transition issue: " (transition_by_name w c t issue_key name)
        (("issue_key", text issue_key) ∷ ("transitioned", flag true) ∷ [])
  transition_to issue_key (some id) name =
      conclude_fault resp "Failed to transition issue: " (transition_by_id w c t issue_key id)
        (("issue_key", text issue_key) ∷ ("transitioned", flag true) ∷ [])

  unfoldable pub handle_transition_issue : Response × Requests
  handle_transition_issue =
      require (text_input cmd "issue_key") (missing resp "issue_key", t)
        λ issue_key.
          transition_to issue_key (text_input cmd "transition_id")
            (text_input cmd "transition_name")

  unfoldable pub handle_search_issues : Response × Requests
  handle_search_issues =
      require (text_input cmd "jql") (missing resp "jql", t)
        λ jql.
          let max_results : ℤ = elim (number_input cmd "max_results") [
            | none ↦ ℤ.pos 50
            | some n ↦ to_int n
          ] in
          conclude resp "Failed to search issues: " (search_issues w c t jql max_results)
            λ found. ("issues", issues found) ∷ ("total_count", number (length found)) ∷ []

  unfoldable pub handle_add_comment : Response × Requests
  handle_add_comment =
      require (text_input cmd "issue_key") (missing resp "issue_key", t)
        λ issue_key.
          require (text_input cmd "body") (missing resp "body", t)
            λ body.
              conclude_fault resp "Failed to add comment: " (add_comment w c t issue_key body)
                (("issue_key", text issue_key) ∷ ("comment_added", flag true) ∷ [])

  unfoldable pub handle_assign_issue : Response × Requests
  handle_assign_issue =
      require (text_input cmd "issue_key") (missing resp "issue_key", t)
        λ issue_key.
          require (text_input cmd "assignee") (missing resp "assignee", t)
            λ assignee.
              conclude_fault resp "Failed to assign issue: " (assign_issue w c t issue_key assignee)
                (("issue_key", text issue_key)
                  ∷ ("assigned", flag true)
                  ∷ ("assignee", text assignee)
                  ∷ [])

  unfoldable pub handle_health_check : ℕ → Response × Requests
  handle_health_check now = (
    succeed resp (
        ("status", text "healthy")
        ∷ ("service_name", text "jira-service")
        ∷ ("jira_connected", flag c.connected)
        ∷ ("timestamp", number now)
        ∷ []),
    t,
  )

  unfoldable pub handle_unknown_operation : Response × Requests
  handle_unknown_operation =
      (refuse resp "unknown_operation" (text_append "Unknown operation: " cmd.operation), t)

-- The cases of the `switch`.
pub data Operation : Type 0 where
  issue_create issue_get issue_update issue_transition issues_search comment_add issue_assign :
      Operation
  health_check unknown : Operation

unfoldable pub operation_of : String → Operation
operation_of name =
    if name == "create_issue"
    then issue_create
    else if name == "get_issue"
    then issue_get
    else if name == "update_issue"
    then issue_update
    else if name == "transition_issue"
    then issue_transition
    else if name == "search_issues"
    then issues_search
    else if name == "add_comment"
    then comment_add
    else if name == "assign_issue"
    then issue_assign
    else if name == "health_check"
    then health_check
    else unknown

unfoldable pub dispatch :
    Operation
    → (ℕ → ℤ)
    → (ℕ → ℕ)
    → World
    → JiraClient
    → Requests
    → WorkflowCommand
    → Response
    → Response × Requests
dispatch issue_create to_int now w c t cmd resp = handle_create_issue to_int w c t cmd resp
dispatch issue_get to_int now w c t cmd resp = handle_get_issue to_int w c t cmd resp
dispatch issue_update to_int now w c t cmd resp = handle_update_issue to_int w c t cmd resp
dispatch issue_transition to_int now w c t cmd resp = handle_transition_issue to_int w c t cmd resp
dispatch issues_search to_int now w c t cmd resp = handle_search_issues to_int w c t cmd resp
dispatch comment_add to_int now w c t cmd resp = handle_add_comment to_int w c t cmd resp
dispatch issue_assign to_int now w c t cmd resp = handle_assign_issue to_int w c t cmd resp
dispatch health_check to_int now w c t cmd resp = handle_health_check to_int w c t cmd resp (now 1)
dispatch unknown to_int now w c t cmd resp = handle_unknown_operation to_int w c t cmd resp

-- `HandleCommand`; it returns no error.
unfoldable pub handle_command :
    (ℕ → ℤ) → (ℕ → ℕ) → World → JiraClient → Requests → WorkflowCommand → Response × Requests
unfolding dispatch
handle_command to_int now w c t cmd =
    dispatch (operation_of cmd.operation) to_int now w c t cmd (new_response (now 0) cmd)

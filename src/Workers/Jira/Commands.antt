-- ===== src/Workers/Jira/Commands.antt =====
-- What the commands of the Jira service come to: jira-service/internal/service/handler.go.
use proctssor.Prelude.{
  ℕ, ℤ, String, ◌≡◌, refl, sym, ap, subst, List, [], ◌∷◌, Map, Option, none, some, Result, err,
  Bool-cases, inl, inr, ◌⊎◌,
}
use proctssor.Workers.{WorkflowCommand, ResponseStatus, new_response, text_input}
use proctssor.Workers.Answers.{require_both}
use proctssor.Workers.Jira.{JiraClient, Requests, World}
use proctssor.Workers.Jira.Requests.{
  Unposted, concluded, concluded_fault, create_issue-unsent, add_comment-unsent,
  transition_by_id-unsent, transition_by_name-fails, get_transitions-Unposted, get_issue-Unposted,
  search_issues-Unposted, assign_issue-Unposted, update_issue-Unposted,
}
use proctssor.Workers.Jira.Handler.{
  Output, Response, conclude, conclude_fault, handle_create_issue, handle_get_issue, updatable,
  handle_update_issue, transition_to, handle_transition_issue, handle_search_issues,
  handle_add_comment, handle_assign_issue, handle_health_check, handle_unknown_operation, Operation,
  issue_create, issue_get, issue_update, issue_transition, issues_search, comment_add, issue_assign,
  health_check, unknown, operation_of, dispatch, handle_command,
}

-- An error, and no post.
abbrev Failed : Requests → Response × Requests → Type 0
Failed t r = (r.0.status ≡ ResponseStatus.error) × (Unposted t → Unposted r.1)

abbrev Kept : Requests → Response × Requests → Type 0
Kept t r = Unposted t → Unposted r.1

-- The end of a handler whose call fails.
conclude-Failed :
    {A : Type 0} (t : Requests) (resp : Response) (what : String) (f : A → Map Output)
    {x : Result String A × Requests}
    → (e : String) × (x ≡ (err e, t))
    → Failed t (conclude resp what x f)
unfolding conclude
conclude-Failed t resp what f (e, failed) =
    subst (λ y. Failed t (conclude resp what y f)) (sym failed) (refl, λ h. h)

conclude_fault-Failed :
    (t t' : Requests) (resp : Response) (what : String) (outputs : Map Output)
    {x : Option String × Requests}
    → (e : String) × (x ≡ (some e, t'))
    → (Unposted t → Unposted t')
    → Failed t (conclude_fault resp what x outputs)
unfolding conclude_fault
conclude_fault-Failed t t' resp what outputs (e, failed) kept =
    subst (λ y. Failed t (conclude_fault resp what y outputs)) (sym failed) (refl, kept)

module _ (to_int : ℕ → ℤ) (w : World) (c : JiraClient) (t : Requests) (cmd : WorkflowCommand)
    (resp : Response) where
  handle_create_issue-Failed : Failed t (handle_create_issue to_int w c t cmd resp)
  unfolding handle_create_issue conclude
  handle_create_issue-Failed =
      require_both (Failed t) (text_input cmd "project_key") _ _ (refl, λ h. h)
        λ project_key.
          require_both (Failed t) (text_input cmd "summary") _ _ (refl, λ h. h)
            λ summary.
              conclude-Failed t resp _ _ (create_issue-unsent w c t project_key summary _ _ _)

  handle_add_comment-Failed : Failed t (handle_add_comment to_int w c t cmd resp)
  unfolding handle_add_comment conclude_fault
  handle_add_comment-Failed =
      require_both (Failed t) (text_input cmd "issue_key") _ _ (refl, λ h. h)
        λ issue_key.
          require_both (Failed t) (text_input cmd "body") _ _ (refl, λ h. h)
            λ body.
              conclude_fault-Failed t t resp _ _ (add_comment-unsent w c t issue_key body) λ h. h

  transition_to-Failed :
      (issue_key : String) (id name : Option String)
      → Failed t (transition_to to_int w c t cmd resp issue_key id name)
  unfolding transition_to conclude_fault
  transition_to-Failed issue_key none none = (refl, λ h. h)
  transition_to-Failed issue_key none (some name) =
      conclude_fault-Failed t _ resp _ _ (transition_by_name-fails w c t issue_key name)
        (get_transitions-Unposted w c t issue_key)
  transition_to-Failed issue_key (some id) name =
      conclude_fault-Failed t t resp _ _ (transition_by_id-unsent w c t issue_key id) λ h. h

  handle_transition_issue-Failed : Failed t (handle_transition_issue to_int w c t cmd resp)
  unfolding handle_transition_issue
  handle_transition_issue-Failed =
      require_both (Failed t) (text_input cmd "issue_key") _ _ (refl, λ h. h)
        λ issue_key. transition_to-Failed issue_key _ _

  handle_get_issue-Kept : Kept t (handle_get_issue to_int w c t cmd resp)
  unfolding handle_get_issue
  handle_get_issue-Kept =
      require_both (Kept t) (text_input cmd "issue_key") _ _ (λ h. h)
        λ issue_key. λ h. concluded Unposted resp _ _ _ (get_issue-Unposted w c t issue_key h)

  handle_search_issues-Kept : Kept t (handle_search_issues to_int w c t cmd resp)
  unfolding handle_search_issues
  handle_search_issues-Kept =
      require_both (Kept t) (text_input cmd "jql") _ _ (λ h. h)
        λ jql. λ h. concluded Unposted resp _ _ _ (search_issues-Unposted w c t jql _ h)

  handle_assign_issue-Kept : Kept t (handle_assign_issue to_int w c t cmd resp)
  unfolding handle_assign_issue
  handle_assign_issue-Kept =
      require_both (Kept t) (text_input cmd "issue_key") _ _ (λ h. h)
        λ issue_key.
          require_both (Kept t) (text_input cmd "assignee") _ _ (λ h. h)
            λ assignee. λ h.
              concluded_fault Unposted resp _ _ _ (assign_issue-Unposted w c t issue_key assignee h)

  handle_update_issue-Kept : Kept t (handle_update_issue to_int w c t cmd resp)
  unfolding handle_update_issue
  handle_update_issue-Kept =
      require_both (Kept t) (text_input cmd "issue_key") _ _ (λ h. h)
        λ issue_key.
          elim (Bool-cases (
            updatable (text_input cmd "summary") (text_input cmd "description")
              (text_input cmd "labels"))) [
                | inl there ↦ rw there λ h.
                    concluded_fault Unposted resp _ _ _
                      (update_issue-Unposted w c t issue_key _ _ _ h)
                | inr nothing ↦ rw nothing λ h. h
              ]

dispatch-Kept :
    (op : Operation) (to_int : ℕ → ℤ) (now : ℕ → ℕ) (w : World) (c : JiraClient) (t : Requests)
    (cmd : WorkflowCommand) (resp : Response)
    → Kept t (dispatch op to_int now w c t cmd resp)
unfolding dispatch handle_health_check handle_unknown_operation
dispatch-Kept issue_create to_int now w c t cmd resp =
    (handle_create_issue-Failed to_int w c t cmd resp).1
dispatch-Kept issue_get to_int now w c t cmd resp = handle_get_issue-Kept to_int w c t cmd resp
dispatch-Kept issue_update to_int now w c t cmd resp =
    handle_update_issue-Kept to_int w c t cmd resp
dispatch-Kept issue_transition to_int now w c t cmd resp =
    (handle_transition_issue-Failed to_int w c t cmd resp).1
dispatch-Kept issues_search to_int now w c t cmd resp =
    handle_search_issues-Kept to_int w c t cmd resp
dispatch-Kept comment_add to_int now w c t cmd resp =
    (handle_add_comment-Failed to_int w c t cmd resp).1
dispatch-Kept issue_assign to_int now w c t cmd resp =
    handle_assign_issue-Kept to_int w c t cmd resp
dispatch-Kept health_check to_int now w c t cmd resp = λ h. h
dispatch-Kept unknown to_int now w c t cmd resp = λ h. h

-- Commands one after the other; what is kept are the requests that were made.
unfoldable pub serve :
    (ℕ → ℤ) → World → JiraClient → List ((ℕ → ℕ) × WorkflowCommand) → Requests → Requests
serve to_int w c [] t = t
serve to_int w c ((now, cmd) ∷ cmds) t =
    serve to_int w c cmds (handle_command to_int now w c t cmd).1

-- Whatever commands come and whatever Jira answers, the service never makes a request with the method
-- POST, so that it creates no issue, no comment and no transition.
pub serve-Unposted :
    (to_int : ℕ → ℤ) (w : World) (c : JiraClient) (cmds : List ((ℕ → ℕ) × WorkflowCommand))
    (t : Requests)
    → Unposted t
    → Unposted (serve to_int w c cmds t)
unfolding serve handle_command
serve-Unposted to_int w c [] t h = h
serve-Unposted to_int w c ((now, cmd) ∷ cmds) t h =
    serve-Unposted to_int w c cmds (handle_command to_int now w c t cmd).1
      (dispatch-Kept (operation_of cmd.operation) to_int now w c t cmd (new_response (now 0) cmd) h)

-- The operations that need such a request.
abbrev pub Posts : String → Type 0
Posts name = (name ≡ "create_issue") ⊎ (name ≡ "add_comment") ⊎ (name ≡ "transition_issue")

operation_of-Posts :
    (name : String)
    → Posts name
    → (operation_of name ≡ issue_create)
      ⊎ (operation_of name ≡ comment_add)
      ⊎ (operation_of name ≡ issue_transition)
unfolding operation_of
operation_of-Posts name (inl e) = inl (ap operation_of e)
operation_of-Posts name (inr (inl e)) = inr (inl (ap operation_of e))
operation_of-Posts name (inr (inr e)) = inr (inr (ap operation_of e))

-- A command to create an issue, to add a comment or to move an issue on is answered with an error,
-- whatever its inputs and whatever Jira answers.
pub handle_command-Posts :
    (to_int : ℕ → ℤ) (now : ℕ → ℕ) (w : World) (c : JiraClient) (t : Requests)
    (cmd : WorkflowCommand)
    → Posts cmd.operation
    → (handle_command to_int now w c t cmd).0.status ≡ ResponseStatus.error
unfolding handle_command dispatch
handle_command-Posts to_int now w c t cmd posts = elim (operation_of-Posts cmd.operation posts) [
  | inl e ↦ rw e (handle_create_issue-Failed to_int w c t cmd (new_response (now 0) cmd)).0
  | inr (inl e) ↦ rw e (handle_add_comment-Failed to_int w c t cmd (new_response (now 0) cmd)).0
  | inr (inr e) ↦
      rw e (handle_transition_issue-Failed to_int w c t cmd (new_response (now 0) cmd)).0
]

-- ===== src/Workers/Gitlab/Handler.antt =====
-- The handler of GitLab commands: gitlab-service/internal/service/handler.go. `to_int` is the
-- conversion of a float64 to an int. `none` is the panic of a nil pointer.
use Prim.Native.String.{◌++◌ as text_append}
use proctssor.Prelude.{
  ℕ, ℤ, String, Bool, true, List, [], ◌∷◌, ◌++◌, Map, Option, none, some, Result, ok, err,
}
use proctssor.Workers.{
  WorkflowCommand, ServiceResponse, refuse, succeed, text_input, number_input, object_input,
  texts_of, require,
}
use proctssor.Workers.Gitlab.{
  MergeRequest, Issue, CommitStatus, Trace, GitlabApi, is_connected, get_project,
  create_merge_request, get_merge_request, approve_merge_request, create_issue, get_issue,
  add_issue_comment, add_mr_comment, create_pipeline, get_commit_statuses,
}

pub data Output : Type 0 where
  text : String → Output
  flag : Bool → Output
  number : ℕ → Output
  time : Option ℕ → Output
  statuses : List CommitStatus → Output

abbrev pub Response : Type 0
Response = ServiceResponse Output

abbrev pub missing : Response → String → Response
missing resp name = refuse resp "invalid_input" (text_append name " is required")

abbrev pub api_error : Response → String → String → Response
api_error resp what message = refuse resp "gitlab_api_error" (text_append what message)

abbrev pub or_text : Option String → String → String
or_text o default = elim o [ none ↦ default | some s ↦ s ]

-- The end of a handler: the library's error, or the outputs.
unfoldable pub conclude :
    {A : Type 0} → Response → String → Result String A × Trace → (A → Map Output) → Response × Trace
conclude resp what (r, t) outputs = elim r [
  | err e ↦ (api_error resp what e, t)
  | ok a ↦ (succeed resp (outputs a), t)
]

-- The same for a call of which only the error is read.
unfoldable pub conclude_fault :
    Response → String → Option String × Trace → Map Output → Response × Trace
conclude_fault resp what (fault, t) outputs = elim fault [
  | some e ↦ (api_error resp what e, t)
  | none ↦ (succeed resp outputs, t)
]

unfoldable pub handle_create_mr : GitlabApi → Trace → WorkflowCommand → Response → Response × Trace
handle_create_mr api t cmd resp =
    require (text_input cmd "project_id") (missing resp "project_id", t)
      λ project_id.
        require (text_input cmd "source_branch") (missing resp "source_branch", t)
          λ source_branch.
            let target_branch = or_text (text_input cmd "target_branch") "main" in
            let title =
              or_text (text_input cmd "title") (text_append "Merge request from " source_branch) in
            let description = or_text (text_input cmd "description") "" in
            conclude resp "Failed to create merge request: "
              (create_merge_request api t project_id source_branch target_branch title description)
              (λ mr.
                ("merge_request_iid", number mr.iid)
                ∷ ("merge_request_id", number mr.id)
                ∷ ("merge_request_url", text mr.web_url)
                ∷ ("state", text mr.state)
                ∷ [])

unfoldable pub handle_get_project :
    GitlabApi → Trace → WorkflowCommand → Response → Response × Trace
handle_get_project api t cmd resp =
    require (text_input cmd "project_id") (missing resp "project_id", t)
      λ project_id.
        conclude resp "Failed to get project: " (get_project api t project_id) (λ project.
          ("project_id", number project.id)
          ∷ ("project_name", text project.name)
          ∷ ("project_path", text project.path)
          ∷ ("project_path_with_namespace", text project.path_with_namespace)
          ∷ ("project_web_url", text project.web_url)
          ∷ ("default_branch", text project.default_branch)
          ∷ [])

-- The outputs that two handlers share.
abbrev pub issue_outputs : Issue → Map Output
issue_outputs issue =
    ("issue_id", number issue.id)
    ∷ ("issue_iid", number issue.iid)
    ∷ ("issue_url", text issue.web_url)
    ∷ ("issue_state", text issue.state)
    ∷ ("issue_title", text issue.title)
    ∷ []

unfoldable pub handle_create_issue :
    GitlabApi → Trace → WorkflowCommand → Response → Response × Trace
handle_create_issue api t cmd resp =
    require (text_input cmd "project_id") (missing resp "project_id", t)
      λ project_id.
        require (text_input cmd "title") (missing resp "title", t)
          λ title.
            let description = or_text (text_input cmd "description") "" in
            let labels = or_text (text_input cmd "labels") "" in
            conclude resp "Failed to create issue: "
              (create_issue api t project_id title description labels) issue_outputs

unfoldable pub handle_get_issue :
    (ℕ → ℤ) → GitlabApi → Trace → WorkflowCommand → Response → Response × Trace
handle_get_issue to_int api t cmd resp =
    require (text_input cmd "project_id") (missing resp "project_id", t)
      λ project_id.
        require (number_input cmd "issue_iid") (missing resp "issue_iid", t)
          λ iid.
            conclude resp "Failed to get issue: " (get_issue api t project_id (to_int iid))
              (λ issue. issue_outputs issue ++ ("issue_desc", text issue.description) ∷ [])

-- The two calls of `handleAddComment`: an issue goes before a merge request.
unfoldable pub comment_on :
    (ℕ → ℤ)
    → GitlabApi
    → Trace
    → Response
    → String
    → String
    → Option ℕ
    → Option ℕ
    → Response × Trace
comment_on to_int api t resp project_id body (some iid) mr_iid =
    conclude_fault resp "Failed to add comment: "
      (add_issue_comment api t project_id (to_int iid) body) (("comment_added", flag true) ∷ [])
comment_on to_int api t resp project_id body none (some iid) =
    conclude_fault resp "Failed to add comment: "
      (add_mr_comment api t project_id (to_int iid) body) (("comment_added", flag true) ∷ [])
comment_on to_int api t resp project_id body none none =
    (missing resp "either issue_iid or mr_iid", t)

unfoldable pub handle_add_comment :
    (ℕ → ℤ) → GitlabApi → Trace → WorkflowCommand → Response → Response × Trace
handle_add_comment to_int api t cmd resp =
    require (text_input cmd "project_id") (missing resp "project_id", t)
      λ project_id.
        require (text_input cmd "body") (missing resp "body", t)
          λ body.
            comment_on to_int api t resp project_id body (number_input cmd "issue_iid")
              (number_input cmd "mr_iid")

unfoldable pub handle_create_pipeline :
    GitlabApi → Trace → WorkflowCommand → Response → Response × Trace
handle_create_pipeline api t cmd resp =
    require (text_input cmd "project_id") (missing resp "project_id", t)
      λ project_id.
        let variables : Map String = elim (object_input cmd "variables") [
          | none ↦ []
          | some fs ↦ texts_of fs
        ] in
        conclude resp "Failed to create pipeline: "
          (create_pipeline api t project_id (or_text (text_input cmd "ref") "main") variables)
          (λ pipeline.
            ("pipeline_id", number pipeline.id)
            ∷ ("pipeline_status", text pipeline.status)
            ∷ ("pipeline_web_url", text pipeline.web_url)
            ∷ [])

unfoldable pub handle_get_commit_status :
    GitlabApi → Trace → WorkflowCommand → Response → Response × Trace
handle_get_commit_status api t cmd resp =
    require (text_input cmd "project_id") (missing resp "project_id", t)
      λ project_id.
        require (text_input cmd "sha") (missing resp "sha", t)
          λ sha.
            conclude resp "Failed to get commit status: " (get_commit_statuses api t project_id sha)
              (λ found. ("commit_sha", text sha) ∷ ("commit_statuses", statuses found) ∷ [])

-- What `handleGetMergeRequest` does with the answer of GitLab: `mr.MergedBy.Username` reads through
-- the pointer without a test.
unfoldable pub show_merge_request :
    Response → Result String MergeRequest × Trace → Option (Response × Trace)
show_merge_request resp (err e, t) = some (api_error resp "Failed to get merge request: " e, t)
show_merge_request resp (ok mr, t) = elim mr.merged_by [
  | none ↦ none
  | some username ↦ some (
    succeed resp (
        ("mr_id", number mr.id)
        ∷ ("mr_iid", number mr.iid)
        ∷ ("mr_title", text mr.title)
        ∷ ("mr_state", text mr.state)
        ∷ ("mr_web_url", text mr.web_url)
        ∷ ("mr_source_branch", text mr.source_branch)
        ∷ ("mr_target_branch", text mr.target_branch)
        ∷ ("mr_merged_by", text username)
        ∷ ("mr_merged_at", time mr.merged_at)
        ∷ ("mr_has_conflicts", flag mr.has_conflicts)
        ∷ []),
    t,
  )
]

unfoldable pub handle_get_merge_request :
    (ℕ → ℤ) → GitlabApi → Trace → WorkflowCommand → Response → Option (Response × Trace)
handle_get_merge_request to_int api t cmd resp =
    require (text_input cmd "project_id") (some (missing resp "project_id", t)) λ project_id.
      require (number_input cmd "mr_iid") (some (missing resp "mr_iid", t))
        λ iid. show_merge_request resp (get_merge_request api t project_id (to_int iid))

unfoldable pub handle_approve_mr :
    (ℕ → ℤ) → GitlabApi → Trace → WorkflowCommand → Response → Response × Trace
handle_approve_mr to_int api t cmd resp =
    require (text_input cmd "project_id") (missing resp "project_id", t)
      λ project_id.
        require (number_input cmd "mr_iid") (missing resp "mr_iid", t)
          λ iid.
            conclude_fault resp "Failed to approve merge request: "
              (approve_merge_request api t project_id (to_int iid))
              (("mr_approved", flag true) ∷ [])

unfoldable pub handle_health_check : GitlabApi → ℕ → Trace → Response → Response × Trace
handle_health_check api now t resp =
    let (connected, t') = is_connected api t in
    (
      succeed resp (
          ("status", text "healthy")
          ∷ ("service_name", text "gitlab-service")
          ∷ ("gitlab_connected", flag connected)
          ∷ ("timestamp", number now)
          ∷ []),
      t',
    )

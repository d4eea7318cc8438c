-- ===== src/Workers/Gitlab/Calls.antt =====
-- Which commands reach GitLab, and what comes back: gitlab-service/internal/service/handler.go and
-- gitlab.go.
use Prim.Native.String.{◌++◌ as text_append}
use proctssor.Prelude.{
  ℕ, ℤ, String, ◌≡◌, ◌≢◌, ◌⊎◌, inl, inr, refl, [], ◌∷◌, ◌++◌, Map, Option, none, some, Result, ok,
  err, Result-cases, Option-cases,
}
use proctssor.Workers.{
  WorkflowCommand, ResponseStatus, IsAnswer, new_response, refuse, succeed, text_input,
  number_input, require,
}
use proctssor.Workers.Answers.{refuse-IsAnswer, succeed-IsAnswer, differ}
use proctssor.Workers.Gitlab.{
  MergeRequest, ApiCall, merge_request_of, Trace, GitlabApi, is_connected, get_project,
  create_merge_request, get_merge_request, approve_merge_request, create_issue, get_issue,
  add_issue_comment, add_mr_comment, create_pipeline, get_commit_statuses,
}
use proctssor.Workers.Gitlab.Handler.{
  Output, Response, missing, api_error, conclude, conclude_fault, comment_on, show_merge_request,
  handle_create_mr, handle_get_project, handle_create_issue, handle_get_issue, handle_add_comment,
  handle_create_pipeline, handle_get_commit_status, handle_get_merge_request, handle_approve_mr,
  handle_health_check,
}
use proctssor.Workers.Gitlab.Service.{
  Operation, create_mr, project_get, issue_create, issue_get, add_comment, pipeline_create,
  get_commit_status, merge_request_get, approve_mr, health_check, unknown, operation_of, dispatch,
  handle_command,
}

-- A handled command: its answer, and the calls that it took. A refused one takes none.
pub record Handled (cmd : WorkflowCommand) (t : Trace) (r : Response × Trace) : Type 0 where
  pub answer : IsAnswer cmd r.0
  pub calls :
      ((r.1 ≡ t) × (r.0.status ≡ ResponseStatus.error) × (r.0.error_code ≢ "gitlab_api_error"))
      ⊎ ((call : ApiCall) × (r.1 ≡ t ++ call ∷ [])
          × ((r.0.status ≡ ResponseStatus.success) ⊎ (r.0.error_code ≡ "gitlab_api_error")))

module _ (cmd : WorkflowCommand) (now : ℕ) (t : Trace) where
  abbrev resp : Response
  resp = new_response now cmd

  refused :
      (code message : String)
      → code ≢ ""
      → code ≢ "gitlab_api_error"
      → Handled cmd t (refuse resp code message, t)
  refused code message named ours = record {
    answer = refuse-IsAnswer now cmd code message named;
    calls = inl (refl, refl, ours);
  }

  done :
      (call : ApiCall) (outputs : Map Output) → Handled cmd t (succeed resp outputs, t ++ call ∷ [])
  done call outputs = record {
    answer = succeed-IsAnswer now cmd outputs;
    calls = inr (call, refl, inl refl);
  }

  failed :
      (call : ApiCall) (what e : String) → Handled cmd t (api_error resp what e, t ++ call ∷ [])
  failed call what e = record {
    answer = refuse-IsAnswer now cmd "gitlab_api_error" _ (differ "gitlab_api_error" "" refl);
    calls = inr (call, refl, inr refl);
  }

  -- A guard for an input, and the two ends of a call.
  need :
      {A : Type 0} (o : Option A) (name : String) (k : A → Response × Trace)
      → ((a : A) → Handled cmd t (k a))
      → Handled cmd t (require o (missing resp name, t) k)
  unfolding require
  need none name k h =
      refused "invalid_input" _ (differ "invalid_input" "" refl)
        (differ "invalid_input" "gitlab_api_error" refl)
  need (some a) name k h = h a

  answered :
      {A : Type 0} (call : ApiCall) (what : String) (r : Result String A) (f : A → Map Output)
      → Handled cmd t (conclude resp what (r, t ++ call ∷ []) f)
  unfolding conclude
  answered call what (ok a) f = done call (f a)
  answered call what (err e) f = failed call what e

  accepted :
      (call : ApiCall) (what : String) (fault : Option String) (outputs : Map Output)
      → Handled cmd t (conclude_fault resp what (fault, t ++ call ∷ []) outputs)
  unfolding conclude_fault
  accepted call what none outputs = done call outputs
  accepted call what (some e) outputs = failed call what e

module _ (to_int : ℕ → ℤ) (api : GitlabApi) (cmd : WorkflowCommand) (now : ℕ) (t : Trace) where
  create_mr-Handled : Handled cmd t (handle_create_mr api t cmd (new_response now cmd))
  unfolding handle_create_mr create_merge_request
  create_mr-Handled = need cmd now t (text_input cmd "project_id") "project_id" _ λ project_id.
      need cmd now t (text_input cmd "source_branch") "source_branch" _
        λ source. answered cmd now t _ _ _ _

  get_project-Handled : Handled cmd t (handle_get_project api t cmd (new_response now cmd))
  unfolding handle_get_project get_project
  get_project-Handled =
      need cmd now t (text_input cmd "project_id") "project_id" _
        λ project_id. answered cmd now t _ _ _ _

  create_issue-Handled : Handled cmd t (handle_create_issue api t cmd (new_response now cmd))
  unfolding handle_create_issue create_issue
  create_issue-Handled = need cmd now t (text_input cmd "project_id") "project_id" _ λ project_id.
      need cmd now t (text_input cmd "title") "title" _ λ title. answered cmd now t _ _ _ _

  get_issue-Handled : Handled cmd t (handle_get_issue to_int api t cmd (new_response now cmd))
  unfolding handle_get_issue get_issue
  get_issue-Handled = need cmd now t (text_input cmd "project_id") "project_id" _ λ project_id.
      need cmd now t (number_input cmd "issue_iid") "issue_iid" _ λ iid. answered cmd now t _ _ _ _

  comment_on-Handled :
      (project_id body : String) (issue mr : Option ℕ)
      → Handled cmd t (comment_on to_int api t (new_response now cmd) project_id body issue mr)
  unfolding comment_on add_issue_comment add_mr_comment
  comment_on-Handled project_id body (some iid) mr = accepted cmd now t _ _ _ _
  comment_on-Handled project_id body none (some iid) = accepted cmd now t _ _ _ _
  comment_on-Handled project_id body none none =
      refused cmd now t "invalid_input" _ (differ "invalid_input" "" refl)
        (differ "invalid_input" "gitlab_api_error" refl)

  add_comment-Handled : Handled cmd t (handle_add_comment to_int api t cmd (new_response now cmd))
  unfolding handle_add_comment
  add_comment-Handled = need cmd now t (text_input cmd "project_id") "project_id" _ λ project_id.
      need cmd now t (text_input cmd "body") "body" _ λ body. comment_on-Handled project_id body _ _

  create_pipeline-Handled : Handled cmd t (handle_create_pipeline api t cmd (new_response now cmd))
  unfolding handle_create_pipeline create_pipeline
  create_pipeline-Handled =
      need cmd now t (text_input cmd "project_id") "project_id" _
        λ project_id. answered cmd now t _ _ _ _

  get_commit_status-Handled :
      Handled cmd t (handle_get_commit_status api t cmd (new_response now cmd))
  unfolding handle_get_commit_status get_commit_statuses
  get_commit_status-Handled =
      need cmd now t (text_input cmd "project_id") "project_id" _ λ project_id.
        need cmd now t (text_input cmd "sha") "sha" _ λ sha. answered cmd now t _ _ _ _

  approve_mr-Handled : Handled cmd t (handle_approve_mr to_int api t cmd (new_response now cmd))
  unfolding handle_approve_mr approve_merge_request
  approve_mr-Handled = need cmd now t (text_input cmd "project_id") "project_id" _ λ project_id.
      need cmd now t (number_input cmd "mr_iid") "mr_iid" _ λ iid. accepted cmd now t _ _ _ _

  health_check-Handled :
      (later : ℕ) → Handled cmd t (handle_health_check api later t (new_response now cmd))
  unfolding handle_health_check is_connected
  health_check-Handled later = done cmd now t _ _

  -- What becomes of a command: the panic over a merge request without such a person, or an answer.
  unfoldable pub Outcome : Option (Response × Trace) → Type 0
  Outcome out =
      ((out ≡ none)
        × (project_id : String) × (iid : ℕ) × (text_input cmd "project_id" ≡ some project_id)
        × (number_input cmd "mr_iid" ≡ some iid)
        × (mr : MergeRequest) × (api.merge_request t (merge_request_of project_id (to_int iid))
            ≡ ok mr)
        × (mr.merged_by ≡ none))
      ⊎ ((r : Response × Trace) × (out ≡ some r) × Handled cmd t r)

  answers : {r : Response × Trace} → Handled cmd t r → Outcome (some r)
  unfolding Outcome
  answers h = inr (_, refl, h)

  panics :
      (project_id : String) (iid : ℕ) (mr : MergeRequest)
      → text_input cmd "project_id" ≡ some project_id
      → number_input cmd "mr_iid" ≡ some iid
      → api.merge_request t (merge_request_of project_id (to_int iid)) ≡ ok mr
      → mr.merged_by ≡ none
      → Outcome none
  unfolding Outcome
  panics project_id iid mr named numbered shown nobody =
      inl (refl, project_id, iid, named, numbered, mr, shown, nobody)

  show-Outcome :
      (project_id : String) (iid : ℕ)
      → text_input cmd "project_id" ≡ some project_id
      → number_input cmd "mr_iid" ≡ some iid
      → Outcome (
          show_merge_request
            (new_response now cmd)
            (get_merge_request api t project_id (to_int iid)))
  unfolding show_merge_request get_merge_request
  show-Outcome project_id iid named numbered =
      let call = merge_request_of project_id (to_int iid) in
      elim (Result-cases (api.merge_request t call)) [
        | inl (mr, shown) ↦ elim (Option-cases mr.merged_by) [
          | inl nobody ↦
              rw (get_merge_request, shown, show_merge_request, nobody)
                (panics project_id iid mr named numbered shown nobody)
          | inr (username, merged) ↦
              rw (get_merge_request, shown, show_merge_request, merged)
                (answers (done cmd now t call _))
        ]
        | inr (e, refusal) ↦
            rw (get_merge_request, refusal, show_merge_request)
              (answers (failed cmd now t call _ _))
      ]

  get_merge_request-Outcome :
      Outcome (handle_get_merge_request to_int api t cmd (new_response now cmd))
  unfolding handle_get_merge_request require
  get_merge_request-Outcome = elim (Option-cases (text_input cmd "project_id")) [
    | inl unnamed ↦
        rw (handle_get_merge_request, unnamed, require)
          (answers (
            refused cmd now t "invalid_input" _ (differ "invalid_input" "" refl)
              (differ "invalid_input" "gitlab_api_error" refl)))
    | inr (project_id, named) ↦ elim (Option-cases (number_input cmd "mr_iid")) [
      | inl unnumbered ↦
          rw (handle_get_merge_request, named, require, unnumbered)
            (answers (
              refused cmd now t "invalid_input" _ (differ "invalid_input" "" refl)
                (differ "invalid_input" "gitlab_api_error" refl)))
      | inr (iid, numbered) ↦
          rw (handle_get_merge_request, named, require, numbered)
            (show-Outcome project_id iid named numbered)
    ]
  ]

module _ (to_int : ℕ → ℤ) (api : GitlabApi) (cmd : WorkflowCommand) (t : Trace) where
  dispatch-Outcome :
      (op : Operation) (now : ℕ → ℕ)
      → Outcome to_int api cmd
          (now 0)
          t
          (dispatch op to_int now api t cmd (new_response (now 0) cmd))
  unfolding dispatch
  dispatch-Outcome create_mr now =
      answers to_int api cmd (now 0) t (create_mr-Handled to_int api cmd (now 0) t)
  dispatch-Outcome project_get now =
      answers to_int api cmd (now 0) t (get_project-Handled to_int api cmd (now 0) t)
  dispatch-Outcome issue_create now =
      answers to_int api cmd (now 0) t (create_issue-Handled to_int api cmd (now 0) t)
  dispatch-Outcome issue_get now =
      answers to_int api cmd (now 0) t (get_issue-Handled to_int api cmd (now 0) t)
  dispatch-Outcome add_comment now =
      answers to_int api cmd (now 0) t (add_comment-Handled to_int api cmd (now 0) t)
  dispatch-Outcome pipeline_create now =
      answers to_int api cmd (now 0) t (create_pipeline-Handled to_int api cmd (now 0) t)
  dispatch-Outcome get_commit_status now =
      answers to_int api cmd (now 0) t (get_commit_status-Handled to_int api cmd (now 0) t)
  dispatch-Outcome merge_request_get now = get_merge_request-Outcome to_int api cmd (now 0) t
  dispatch-Outcome approve_mr now =
      answers to_int api cmd (now 0) t (approve_mr-Handled to_int api cmd (now 0) t)
  dispatch-Outcome health_check now =
      answers to_int api cmd (now 0) t (health_check-Handled to_int api cmd (now 0) t (now 1))
  dispatch-Outcome unknown now = answers to_int api cmd (now 0) t (
      refused cmd (now 0) t "unknown_operation" (text_append "Unknown operation: " cmd.operation)
        (differ "unknown_operation" "" refl) (differ "unknown_operation" "gitlab_api_error" refl))

  -- Whatever GitLab answers, a command is handled in one of two ways. Either there is a response that
  -- repeats the command's identifiers and is a success, or an error with a code: a command refused
  -- for its input or its operation has called GitLab never, and any other exactly once. Or the handler
  -- panics, and then GitLab showed the merge request that was asked for as merged by nobody.
  pub handle_command_lem :
      (now : ℕ → ℕ) → Outcome to_int api cmd (now 0) t (handle_command to_int now api t cmd)
  unfolding handle_command
  handle_command_lem now = dispatch-Outcome (operation_of cmd.operation) now

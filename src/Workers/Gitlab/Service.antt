-- ===== src/Workers/Gitlab/Service.antt =====
-- The choice of the handler: `HandleCommand` of gitlab-service/internal/service/handler.go.
use Prim.Native.String.{◌++◌ as text_append}
use proctssor.Prelude.{ℕ, ℤ, String, ◌==◌, Option, some, if◌then◌else◌}
use proctssor.Workers.{WorkflowCommand, new_response, refuse}
use proctssor.Workers.Gitlab.{Trace, GitlabApi}
use proctssor.Workers.Gitlab.Handler.{
  Response, handle_create_mr, handle_get_project, handle_create_issue, handle_get_issue,
  handle_add_comment, handle_create_pipeline, handle_get_commit_status, handle_get_merge_request,
  handle_approve_mr, handle_health_check,
}

-- The cases of the `switch`.
pub data Operation : Type 0 where
  create_mr project_get issue_create issue_get add_comment pipeline_create get_commit_status :
      Operation
  merge_request_get approve_mr health_check unknown : Operation

unfoldable pub operation_of : String → Operation
operation_of name =
    if name == "create_mr"
    then create_mr
    else if name == "get_project"
    then project_get
    else if name == "create_issue"
    then issue_create
    else if name == "get_issue"
    then issue_get
    else if name == "add_comment"
    then add_comment
    else if name == "create_pipeline"
    then pipeline_create
    else if name == "get_commit_status"
    then get_commit_status
    else if name == "get_merge_request"
    then merge_request_get
    else if name == "approve_merge_request"
    then approve_mr
    else if name == "health_check"
    then health_check
    else unknown

unfoldable pub dispatch :
    Operation
    → (ℕ → ℤ)
    → (ℕ → ℕ)
    → GitlabApi
    → Trace
    → WorkflowCommand
    → Response
    → Option (Response × Trace)
dispatch create_mr to_int now api t cmd resp = some (handle_create_mr api t cmd resp)
dispatch project_get to_int now api t cmd resp = some (handle_get_project api t cmd resp)
dispatch issue_create to_int now api t cmd resp = some (handle_create_issue api t cmd resp)
dispatch issue_get to_int now api t cmd resp = some (handle_get_issue to_int api t cmd resp)
dispatch add_comment to_int now api t cmd resp = some (handle_add_comment to_int api t cmd resp)
dispatch pipeline_create to_int now api t cmd resp = some (handle_create_pipeline api t cmd resp)
dispatch get_commit_status to_int now api t cmd resp =
    some (handle_get_commit_status api t cmd resp)
dispatch merge_request_get to_int now api t cmd resp =
    handle_get_merge_request to_int api t cmd resp
dispatch approve_mr to_int now api t cmd resp = some (handle_approve_mr to_int api t cmd resp)
dispatch health_check to_int now api t cmd resp = some (handle_health_check api (now 1) t resp)
dispatch unknown to_int now api t cmd resp =
    some (refuse resp "unknown_operation" (text_append "Unknown operation: " cmd.operation), t)

-- `HandleCommand`; it returns no error.
unfoldable pub handle_command :
    (ℕ → ℤ) → (ℕ → ℕ) → GitlabApi → Trace → WorkflowCommand → Option (Response × Trace)
unfolding dispatch
handle_command to_int now api t cmd =
    dispatch (operation_of cmd.operation) to_int now api t cmd (new_response (now 0) cmd)

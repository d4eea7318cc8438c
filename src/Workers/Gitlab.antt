-- ===== src/Workers/Gitlab.antt =====
-- The GitLab client: gitlab-service/internal/service/gitlab.go. The library go-gitlab is a parameter:
-- an answer for each of its calls, which sees the calls made before. Identifiers are numbers, a
-- pointer that may be nil an option.
pub mod Handler
pub mod Service
pub mod Calls
use Prim.Native.String.{◌++◌ as text_append}
use proctssor.Prelude.{
  ℕ, ℤ, String, ◌==◌, Bool, true, false, List, [], ◌∷◌, ◌++◌, Map, Option, none, some,
  if◌then◌else◌, Result, ok, err, is_ok,
}

pub record Project : Type 0 where
  pub id : ℕ
  pub name : String
  pub path : String
  pub path_with_namespace : String
  pub web_url : String
  pub default_branch : String

-- `merged_by` is a pointer, and nil for a merge request that is not merged.
pub record MergeRequest : Type 0 where
  pub id : ℕ
  pub iid : ℕ
  pub title : String
  pub state : String
  pub web_url : String
  pub source_branch : String
  pub target_branch : String
  pub merged_by : Option String
  pub merged_at : Option ℕ
  pub has_conflicts : Bool

pub record Issue : Type 0 where
  pub id : ℕ
  pub iid : ℕ
  pub title : String
  pub description : String
  pub state : String
  pub web_url : String

pub record Pipeline : Type 0 where
  pub id : ℕ
  pub status : String
  pub web_url : String

pub record CommitStatus : Type 0 where
  pub name : String
  pub status : String

-- The library's calls that the client makes, with their options. A nil pointer is no option.
pub data ApiCall : Type 0 where
  current_user : ApiCall
  project_of : String → ApiCall
  merge_request_created : String → String → String → String → Option String → ApiCall
  merge_request_of : String → ℤ → ApiCall
  merge_request_approved : String → ℤ → ApiCall
  issue_created : String → String → Option String → ApiCall
  issue_of : String → ℤ → ApiCall
  issue_noted : String → ℤ → String → ApiCall
  merge_request_noted : String → ℤ → String → ApiCall
  pipeline_created : String → String → ApiCall
  statuses_of : String → String → ApiCall

abbrev pub Trace : Type 0
Trace = List ApiCall

pub record GitlabApi : Type 0 where
  pub project : Trace → ApiCall → Result String Project
  pub merge_request : Trace → ApiCall → Result String MergeRequest
  pub issue : Trace → ApiCall → Result String Issue
  pub pipeline : Trace → ApiCall → Result String Pipeline
  pub statuses : Trace → ApiCall → Result String (List CommitStatus)
  -- Calls of which only the error is read.
  pub accepted : Trace → ApiCall → Option String

abbrev pub wrapped : {A : Type 0} → String → Result String A → Result String A
wrapped text r = elim r [ ok a ↦ ok a | err message ↦ err (text_append text message) ]

abbrev pub wrapped_fault : String → Option String → Option String
wrapped_fault text fault = elim fault [
  | none ↦ none
  | some message ↦ some (text_append text message)
]

abbrev pub optional : String → Option String
optional text = if text == "" then none else some text

-- The client is not nil: NewGitLabClient gives none where it could not be made.
unfoldable pub is_connected : GitlabApi → Trace → Bool × Trace
is_connected api t =
    (elim (api.accepted t current_user) [ none ↦ true | some e ↦ false ], t ++ current_user ∷ [])

unfoldable pub get_project : GitlabApi → Trace → String → Result String Project × Trace
get_project api t project_id =
    let call = project_of project_id in
    (wrapped "failed to get project: " (api.project t call), t ++ call ∷ [])

unfoldable pub create_merge_request :
    GitlabApi
    → Trace
    → String
    → String
    → String
    → String
    → String
    → Result String MergeRequest × Trace
create_merge_request api t project_id source_branch target_branch title description =
    let call =
      merge_request_created project_id source_branch target_branch title (optional description) in
    (wrapped "failed to create merge request: " (api.merge_request t call), t ++ call ∷ [])

unfoldable pub get_merge_request :
    GitlabApi → Trace → String → ℤ → Result String MergeRequest × Trace
get_merge_request api t project_id iid =
    let call = merge_request_of project_id iid in
    (wrapped "failed to get merge request: " (api.merge_request t call), t ++ call ∷ [])

unfoldable pub approve_merge_request : GitlabApi → Trace → String → ℤ → Option String × Trace
approve_merge_request api t project_id iid =
    let call = merge_request_approved project_id iid in
    (wrapped_fault "failed to approve merge request: " (api.accepted t call), t ++ call ∷ [])

-- The labels are not handed on.
unfoldable pub create_issue :
    GitlabApi → Trace → String → String → String → String → Result String Issue × Trace
create_issue api t project_id title description labels =
    let call = issue_created project_id title (optional description) in
    (wrapped "failed to create issue: " (api.issue t call), t ++ call ∷ [])

unfoldable pub get_issue : GitlabApi → Trace → String → ℤ → Result String Issue × Trace
get_issue api t project_id iid =
    let call = issue_of project_id iid in
    (wrapped "failed to get issue: " (api.issue t call), t ++ call ∷ [])

unfoldable pub add_issue_comment : GitlabApi → Trace → String → ℤ → String → Option String × Trace
add_issue_comment api t project_id iid body =
    let call = issue_noted project_id iid body in
    (wrapped_fault "failed to add issue comment: " (api.accepted t call), t ++ call ∷ [])

unfoldable pub add_mr_comment : GitlabApi → Trace → String → ℤ → String → Option String × Trace
add_mr_comment api t project_id iid body =
    let call = merge_request_noted project_id iid body in
    (wrapped_fault "failed to add MR comment: " (api.accepted t call), t ++ call ∷ [])

-- The variables are not handed on.
unfoldable pub create_pipeline :
    GitlabApi → Trace → String → String → Map String → Result String Pipeline × Trace
create_pipeline api t project_id ref variables =
    let call = pipeline_created project_id ref in
    (wrapped "failed to create pipeline: " (api.pipeline t call), t ++ call ∷ [])

unfoldable pub get_commit_statuses :
    GitlabApi → Trace → String → String → Result String (List CommitStatus) × Trace
get_commit_statuses api t project_id sha =
    let call = statuses_of project_id sha in
    (wrapped "failed to get commit statuses: " (api.statuses t call), t ++ call ∷ [])

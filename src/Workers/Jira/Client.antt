-- ===== src/Workers/Jira/Client.antt =====
-- The methods of the Jira client: jira-service/internal/service/jira.go.
use proctssor.Prelude.{
  ℤ, String, ◌==◌, List, [], ◌∷◌, Option, none, some, if◌then◌else◌, Result, ok, err,
}
use proctssor.Workers.Jira.Json.{Value, dict, texts, text, Dict, end, entry, replace_all}
use proctssor.Workers.Jira.{
  Issue, Transition, JiraClient, Requests, World, ◌&◌, do_request, decoded, fault_of, document,
  with_description, with_labels, fields_body, blank, issue_path,
}

-- What `CreateIssue` decodes.
pub record Created : Type 0 where
  pub id : String
  pub key : String

abbrev pub create_body : String → String → String → String → String → Value
create_body project_key summary description issue_type labels = fields_body (
    entry "project" (texts (("key", project_key) ∷ [])) (
      entry "summary" (text summary) (
        entry "issuetype" (texts (("name", issue_type) ∷ []))
          (with_description description (with_labels labels end)))))

unfoldable pub create_issue :
    World
    → JiraClient
    → Requests
    → String
    → String
    → String
    → String
    → String
    → Result String Issue × Requests
create_issue w c t project_key summary description issue_type labels =
    decoded
      (do_request w c t "POST" (c.base_url & "/rest/api/3/issue")
        (some (create_body project_key summary description issue_type labels)))
      (record { id = ""; key = "" })
      λ (result : Created). record blank {
        id = result.id;
        key = result.key;
        url = c.base_url & "/browse/" & result.key;
        summary = summary;
        type_name = issue_type;
        status = "Open";
      }

-- What `GetIssue` decodes is an issue but for its URL.
abbrev pub located : JiraClient → Issue → Issue
located c result = record result { url = c.base_url & "/browse/" & result.key }

unfoldable pub get_issue : World → JiraClient → Requests → String → Result String Issue × Requests
get_issue w c t key = decoded (do_request w c t "GET" (issue_path c key) none) blank (located c)

-- The rest of `UpdateIssue`, after `len(fields) == 0`.
unfoldable pub update_fields :
    World → JiraClient → Requests → String → Dict → Option String × Requests
update_fields w c t key end = (none, t)
update_fields w c t key (entry k v d) =
    fault_of (do_request w c t "PUT" (issue_path c key) (some (fields_body (entry k v d))))

unfoldable pub update_issue :
    World → JiraClient → Requests → String → String → String → String → Option String × Requests
update_issue w c t key summary description labels =
    let rest = with_description description (with_labels labels end) in
    update_fields w c t key (if summary == "" then rest else entry "summary" (text summary) rest)

abbrev pub transition_body : String → Value
transition_body id = dict (entry "transition" (texts (("id", id) ∷ [])) end)

unfoldable pub transition_by_id :
    World → JiraClient → Requests → String → String → Option String × Requests
transition_by_id w c t key id =
    fault_of
      (do_request w c t "POST" (issue_path c key & "/transitions") (some (transition_body id)))

-- The loop over the transitions.
unfoldable pub transition_named :
    World → JiraClient → Requests → String → String → List Transition → Option String × Requests
transition_named w c t key name [] = (some ("transition not found: " & name), t)
transition_named w c t key name (found ∷ l) =
    let rest = transition_named w c t key name l in
    if w.equal_fold found.name name then transition_by_id w c t key found.id else rest

unfoldable pub get_transitions :
    World → JiraClient → Requests → String → Result String (List Transition) × Requests
get_transitions w c t key =
    decoded
      (do_request w c t "GET" (issue_path c key & "/transitions?expand=transitions.fields") none) []
      (λ transitions. transitions)

-- What `TransitionIssueByName` does with the transitions.
unfoldable pub transition_among :
    World
    → JiraClient
    → String
    → String
    → Result String (List Transition) × Requests
    → Option String × Requests
transition_among w c key name (answer, t) = elim answer [
  | err e ↦ (some e, t)
  | ok transitions ↦ transition_named w c t key name transitions
]

unfoldable pub transition_by_name :
    World → JiraClient → Requests → String → String → Option String × Requests
transition_by_name w c t key name = transition_among w c key name (get_transitions w c t key)

-- The loop of `SearchIssues`; of a found issue only these fields are decoded.
abbrev pub listed_all : JiraClient → List Issue → List Issue
listed_all c [] = []
listed_all c (issue ∷ l) =
    record blank {
      id = issue.id;
      key = issue.key;
      url = c.base_url & "/browse/" & issue.key;
      summary = issue.summary;
      type_name = issue.type_name;
      status = issue.status;
    }
    ∷ listed_all c l

unfoldable pub search_issues :
    World → JiraClient → Requests → String → ℤ → Result String (List Issue) × Requests
search_issues w c t jql max_results =
    let no_issues : List Issue = [] in
    decoded
      (do_request w c t "GET"
        (c.base_url
          & "/rest/api/3/search?jql="
          & replace_all 32 "+" jql
          & "&maxResults="
          & w.formats.int_text max_results)
        none)
      no_issues (listed_all c)

abbrev pub comment_body : String → Value
comment_body body = dict (entry "body" (document body) end)

unfoldable pub add_comment :
    World → JiraClient → Requests → String → String → Option String × Requests
add_comment w c t key body =
    fault_of (do_request w c t "POST" (issue_path c key & "/comment") (some (comment_body body)))

unfoldable pub assign_issue :
    World → JiraClient → Requests → String → String → Option String × Requests
assign_issue w c t key assignee = fault_of (
    do_request w c t "PUT" (issue_path c key & "/assignee")
      (some (dict (entry "name" (text assignee) end))))

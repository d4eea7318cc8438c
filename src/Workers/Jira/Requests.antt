-- ===== src/Workers/Jira/Requests.antt =====
-- What reaches Jira, and what cannot: jira-service/internal/service/jira.go and handler.go.
use proctssor.Prelude.{
  ℤ, String, ◌≡◌, ◌≢◌, refl, sym, ap, subst, false, List, [], ◌∷◌, ◌++◌, Map, Option, none, some,
  Result, ok, err, arith, Result-cases, Option-cases, Bool-cases, inl, inr,
}
use proctssor.Workers.Answers.{differ}
use proctssor.Workers.Jira.Json.{Value, Dict, end, entry, plain, encode_json, encode_json_lem}
use proctssor.Workers.Jira.{
  Transition, JiraClient, ◌&◌, issue_path, Request, Requests, HttpResponse, World, encode_body,
  do_request, decode_json, decoded, fault_of,
}
use proctssor.Workers.Jira.Client.{
  create_body, comment_body, transition_body, create_issue, get_issue, update_fields, update_issue,
  transition_by_id, transition_named, get_transitions, transition_among, transition_by_name,
  search_issues, add_comment, assign_issue,
}
use proctssor.Workers.Jira.Handler.{Output, Response, conclude, conclude_fault}

-- No request creates anything.
unfoldable pub Unposted : Requests → Type 0
Unposted [] = Unit {0}
Unposted (request ∷ t) = (request.method ≢ "POST") × Unposted t

pub Unposted-++ :
    (t : Requests) (request : Request)
    → request.method ≢ "POST"
    → Unposted t
    → Unposted (t ++ request ∷ [])
unfolding Unposted
Unposted-++ [] request other h = (other, h)
Unposted-++ (first ∷ t) request other h = (h.0, Unposted-++ t request other h.1)

module _ (w : World) (c : JiraClient) (t : Requests) where
  -- A body with a map of texts or a list in it is not sent.
  do_request-unplain :
      (method url : String) (v : Value)
      → plain v ≡ false
      → (e : String) × (do_request w c t method url (some v) ≡ (err e, t))
  unfolding do_request encode_body
  do_request-unplain method url v h = elim (Result-cases (encode_json w.formats v)) [
    | inl (s, encoded) ↦ absurd (ground (arith, encode_json_lem w.formats v, encoded))
    | inr (e, refusal) ↦ (e, rw (do_request, encode_body, refusal) refl)
  ]

  do_request-Unposted :
      (method url : String) (body : Option Value)
      → method ≢ "POST"
      → Unposted t
      → Unposted (do_request w c t method url body).1
  unfolding do_request
  do_request-Unposted method url body other h = elim (Result-cases (encode_body w.formats body)) [
    | inr (e, refusal) ↦ rw (do_request, refusal) h
    | inl (s, encoded) ↦ elim (Option-cases (w.refuses method url)) [
      | inr (e, refusal) ↦ rw (do_request, encoded, refusal) h
      | inl accepted ↦ rw (do_request, encoded, accepted) (Unposted-++ t _ other h)
    ]
  ]

decoded-requests :
    {A B : Type 0} (x : Result String HttpResponse × Requests) (zero_value : A) (f : A → B)
    → (decoded x zero_value f).1 ≡ x.1
unfolding decoded
decoded-requests (err e, t) zero_value f = refl
decoded-requests (ok resp, t) zero_value f = elim (Result-cases (decode_json resp zero_value)) [
  | inl (a, read) ↦ rw (decoded, read) refl
  | inr (e, unread) ↦ rw (decoded, unread) refl
]

conclude-requests :
    {A : Type 0} (resp : Response) (what : String) (x : Result String A × Requests)
    (f : A → Map Output)
    → (conclude resp what x f).1 ≡ x.1
unfolding conclude
conclude-requests resp what (ok a, t) f = refl
conclude-requests resp what (err e, t) f = refl

conclude_fault-requests :
    (resp : Response) (what : String) (x : Option String × Requests) (outputs : Map Output)
    → (conclude_fault resp what x outputs).1 ≡ x.1
unfolding conclude_fault
conclude_fault-requests resp what (none, t) outputs = refl
conclude_fault-requests resp what (some e, t) outputs = refl

fault_of-requests : {A : Type 0} (x : Result String A × Requests) → (fault_of x).1 ≡ x.1
fault_of-requests x = refl

-- An end of a handler keeps what holds of the requests.
pub concluded :
    {A : Type 0} (P : Requests → Type 0) (resp : Response) (what : String)
    (x : Result String A × Requests) (f : A → Map Output)
    → P x.1
    → P (conclude resp what x f).1
concluded P resp what x f h = subst P (sym (conclude-requests resp what x f)) h

pub concluded_fault :
    (P : Requests → Type 0) (resp : Response) (what : String) (x : Option String × Requests)
    (outputs : Map Output)
    → P x.1
    → P (conclude_fault resp what x outputs).1
concluded_fault P resp what x outputs h =
    subst P (sym (conclude_fault-requests resp what x outputs)) h

module _ (w : World) (c : JiraClient) (t : Requests) where
  fault_of-unplain :
      (method url : String) (v : Value)
      → plain v ≡ false
      → (e : String) × (fault_of (do_request w c t method url (some v)) ≡ (some e, t))
  fault_of-unplain method url v h =
      let (e, unsent) = do_request-unplain w c t method url v h in (e, ap fault_of unsent)

  -- The methods with such a body make no request and fail.
  pub create_issue-unsent :
      (project_key summary description issue_type labels : String)
      → (e : String) × (create_issue w c t project_key summary description issue_type labels
          ≡ (err e, t))
  unfolding create_issue decoded plain
  create_issue-unsent project_key summary description issue_type labels =
      let (e, unsent) =
        do_request-unplain w c t "POST" (c.base_url & "/rest/api/3/issue")
          (create_body project_key summary description issue_type labels) refl in
      (e, rw (create_issue, unsent) refl)

  pub add_comment-unsent :
      (key body : String) → (e : String) × (add_comment w c t key body ≡ (some e, t))
  unfolding add_comment plain
  add_comment-unsent key body =
      fault_of-unplain "POST" (issue_path c key & "/comment") (comment_body body) refl

  pub transition_by_id-unsent :
      (key id : String) → (e : String) × (transition_by_id w c t key id ≡ (some e, t))
  unfolding transition_by_id plain
  transition_by_id-unsent key id =
      fault_of-unplain "POST" (issue_path c key & "/transitions") (transition_body id) refl

  transition_named-unsent :
      (key name : String) (l : List Transition)
      → (e : String) × (transition_named w c t key name l ≡ (some e, t))
  unfolding transition_named
  transition_named-unsent key name [] = (_, refl)
  transition_named-unsent key name (found ∷ l) = elim (Bool-cases (w.equal_fold found.name name)) [
    | inl same ↦
        let (e, unsent) = transition_by_id-unsent key found.id in
        (e, rw (transition_named, same) unsent)
    | inr other ↦
        let (e, unsent) = transition_named-unsent key name l in
        (e, rw (transition_named, other) unsent)
  ]

  -- Every other method makes at most requests that post nothing.
  kept :
      {A B : Type 0} (method url : String) (body : Option Value) (zero_value : A) (f : A → B)
      → method ≢ "POST"
      → Unposted t
      → Unposted (decoded (do_request w c t method url body) zero_value f).1
  kept method url body zero_value f other h =
      subst Unposted (sym (decoded-requests (do_request w c t method url body) zero_value f))
        (do_request-Unposted w c t method url body other h)

  pub get_issue-Unposted : (key : String) → Unposted t → Unposted (get_issue w c t key).1
  unfolding get_issue
  get_issue-Unposted key h = kept "GET" _ _ _ _ (differ "GET" "POST" refl) h

  pub search_issues-Unposted :
      (jql : String) (n : ℤ) → Unposted t → Unposted (search_issues w c t jql n).1
  unfolding search_issues
  search_issues-Unposted jql n h = kept "GET" _ _ _ _ (differ "GET" "POST" refl) h

  pub assign_issue-Unposted :
      (key assignee : String) → Unposted t → Unposted (assign_issue w c t key assignee).1
  unfolding assign_issue
  assign_issue-Unposted key assignee h =
      do_request-Unposted w c t "PUT" _ _ (differ "PUT" "POST" refl) h

  update_fields-Unposted :
      (key : String) (fields : Dict) → Unposted t → Unposted (update_fields w c t key fields).1
  unfolding update_fields
  update_fields-Unposted key end h = h
  update_fields-Unposted key (entry k v d) h =
      do_request-Unposted w c t "PUT" _ _ (differ "PUT" "POST" refl) h

  pub update_issue-Unposted :
      (key summary description labels : String)
      → Unposted t
      → Unposted (update_issue w c t key summary description labels).1
  unfolding update_issue
  update_issue-Unposted key summary description labels h = update_fields-Unposted key _ h

-- Looking for a transition by its name makes no other request, and fails too.
transition_among-fails :
    (w : World) (c : JiraClient) (key name : String)
    (x : Result String (List Transition) × Requests)
    → (e : String) × (transition_among w c key name x ≡ (some e, x.1))
unfolding transition_among
transition_among-fails w c key name (err e, t) = (e, refl)
transition_among-fails w c key name (ok transitions, t) =
    transition_named-unsent w c t key name transitions

pub transition_by_name-fails :
    (w : World) (c : JiraClient) (t : Requests) (key name : String)
    → (e : String) × (transition_by_name w c t key name ≡ (some e, (get_transitions w c t key).1))
unfolding transition_by_name
transition_by_name-fails w c t key name =
    transition_among-fails w c key name (get_transitions w c t key)

pub get_transitions-Unposted :
    (w : World) (c : JiraClient) (t : Requests) (key : String)
    → Unposted t
    → Unposted (get_transitions w c t key).1
unfolding get_transitions
get_transitions-Unposted w c t key h = kept w c t "GET" _ _ _ _ (differ "GET" "POST" refl) h

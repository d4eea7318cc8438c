-- ===== src/Workers/Jira/Blind.antt =====
-- What the Jira service sees of an answer: jira-service/internal/service/jira.go and handler.go.
use proctssor.Prelude.{
  ℤ, String, ◌≡◌, refl, sym, ◌∙◌, ap, List, [], ◌∷◌, Option, none, some, Result, ok, err,
  if◌then◌else◌, Result-cases, Option-cases, inl, inr,
}
use proctssor.Workers.Jira.Json.{Value, Dict, end, entry}
use proctssor.Workers.Jira.{
  Transition, JiraClient, Request, Requests, HttpResponse, World, encode_body, do_request,
  decode_json, decoded, fault_of,
}
use proctssor.Workers.Jira.Client.{
  create_issue, get_issue, update_fields, update_issue, transition_by_id, transition_named,
  get_transitions, search_issues, add_comment, assign_issue,
}

-- Of an answer, only whether there is one and whether its body can be read.
abbrev pub shape : Result String HttpResponse → Result String (Option String)
shape (err e) = err e
shape (ok resp) = ok (elim resp.body [ err e ↦ some e | ok content ↦ none ])

abbrev Same : Result String HttpResponse × Requests → Result String HttpResponse × Requests → Type 0
Same x y = (shape x.0 ≡ shape y.0) × (x.1 ≡ y.1)

-- The same as `decoded` and `fault_of`, from the shape alone.
abbrev by_shape :
    {B : Type 0} → Result String (Option String) → Requests → B → Result String B × Requests
by_shape (err e) t b = (err e, t)
by_shape (ok none) t b = (ok b, t)
by_shape (ok (some e)) t b = (err e, t)

decoded-shape :
    {A B : Type 0} (x : Result String HttpResponse × Requests) (zero_value : A) (f : A → B)
    → decoded x zero_value f ≡ by_shape (shape x.0) x.1 (f zero_value)
unfolding decoded decode_json
decoded-shape (err e, t) zero_value f = refl
decoded-shape (ok resp, t) zero_value f = elim (Result-cases resp.body) [
  | inl (content, read) ↦ rw (decoded, decode_json, shape, by_shape, read) refl
  | inr (e, unread) ↦ rw (decoded, decode_json, shape, by_shape, unread) refl
]

decoded-Same :
    {A B : Type 0} (zero_value : A) (f : A → B) (x y : Result String HttpResponse × Requests)
    → Same x y
    → decoded x zero_value f ≡ decoded y zero_value f
decoded-Same zero_value f x y (e, e') =
    decoded-shape x zero_value f
    ∙ ap (λ s. by_shape s x.1 (f zero_value)) e
    ∙ ap (λ t. by_shape (shape y.0) t (f zero_value)) e'
    ∙ sym (decoded-shape y zero_value f)

abbrev fault_by_shape : Result String (Option String) → Option String
fault_by_shape (err e) = some e
fault_by_shape (ok s) = none

fault_of-shape :
    (x : Result String HttpResponse × Requests) → fault_of x ≡ (fault_by_shape (shape x.0), x.1)
fault_of-shape (err e, t) = refl
fault_of-shape (ok resp, t) = refl

fault_of-Same : (x y : Result String HttpResponse × Requests) → Same x y → fault_of x ≡ fault_of y
fault_of-Same x y (e, e') =
    let with_shape : Result String (Option String) → Option String × Requests =
      λ s. (fault_by_shape s, x.1) in
    let with_requests : Requests → Option String × Requests =
      λ t. (fault_by_shape (shape y.0), t) in
    fault_of-shape x ∙ ap with_shape e ∙ ap with_requests e' ∙ sym (fault_of-shape y)

module _ (w : World) (send : Requests → Request → Result String HttpResponse)
    (same : (t : Requests) (request : Request)
      → shape (w.send t request) ≡ shape (send t request)) where
  abbrev pub other : World
  other = record w { send = send }

  module _ (c : JiraClient) (t : Requests) where
    do_request-Same :
        (method url : String) (body : Option Value)
        → Same (do_request w c t method url body) (do_request other c t method url body)
    unfolding do_request
    do_request-Same method url body = elim (Result-cases (encode_body w.formats body)) [
      | inr (e, failed) ↦ rw (do_request, failed) (refl, refl)
      | inl (s, encoded) ↦ elim (Option-cases (w.refuses method url)) [
        | inr (e, refused) ↦ rw (do_request, encoded, refused) (refl, refl)
        | inl accepted ↦ rw (do_request, encoded, accepted) (same t _, refl)
      ]
    ]

    pub create_issue-same :
        (project_key summary description issue_type labels : String)
        → create_issue w c t project_key summary description issue_type labels
          ≡ create_issue other c t project_key summary description issue_type labels
    unfolding create_issue
    create_issue-same project_key summary description issue_type labels =
        decoded-Same _ _ _ _ (do_request-Same _ _ _)

    pub get_issue-same : (key : String) → get_issue w c t key ≡ get_issue other c t key
    unfolding get_issue
    get_issue-same key = decoded-Same _ _ _ _ (do_request-Same _ _ _)

    update_fields-same :
        (key : String) (fields : Dict)
        → update_fields w c t key fields ≡ update_fields other c t key fields
    unfolding update_fields
    update_fields-same key end = refl
    update_fields-same key (entry k v d) = fault_of-Same _ _ (do_request-Same _ _ _)

    pub update_issue-same :
        (key summary description labels : String)
        → update_issue w c t key summary description labels
          ≡ update_issue other c t key summary description labels
    unfolding update_issue
    update_issue-same key summary description labels = update_fields-same key _

    pub transition_by_id-same :
        (key id : String) → transition_by_id w c t key id ≡ transition_by_id other c t key id
    unfolding transition_by_id
    transition_by_id-same key id = fault_of-Same _ _ (do_request-Same _ _ _)

    pub transition_named-same :
        (key name : String) (l : List Transition)
        → transition_named w c t key name l ≡ transition_named other c t key name l
    unfolding transition_named
    transition_named-same key name [] = refl
    transition_named-same key name (found ∷ l) =
        ap
          (λ rest.
            if w.equal_fold found.name name then transition_by_id w c t key found.id else rest)
          (transition_named-same key name l)
        ∙ ap
            (λ first.
              if w.equal_fold found.name name then first else transition_named other c t key name l)
            (transition_by_id-same key found.id)

    pub get_transitions-same :
        (key : String) → get_transitions w c t key ≡ get_transitions other c t key
    unfolding get_transitions
    get_transitions-same key = decoded-Same _ _ _ _ (do_request-Same _ _ _)

    pub search_issues-same :
        (jql : String) (n : ℤ) → search_issues w c t jql n ≡ search_issues other c t jql n
    unfolding search_issues
    search_issues-same jql n = decoded-Same _ _ _ _ (do_request-Same _ _ _)

    pub add_comment-same :
        (key body : String) → add_comment w c t key body ≡ add_comment other c t key body
    unfolding add_comment
    add_comment-same key body = fault_of-Same _ _ (do_request-Same _ _ _)

    pub assign_issue-same :
        (key assignee : String)
        → assign_issue w c t key assignee ≡ assign_issue other c t key assignee
    unfolding assign_issue
    assign_issue-same key assignee = fault_of-Same _ _ (do_request-Same _ _ _)

-- ===== src/Workers/Jira.antt =====
-- The requests of the Jira client: jira-service/internal/service/jira.go. Parameters: the HTTP client, with an answer
-- for each request that sees the requests made before, base64, `strings.EqualFold` and the formats of
-- numbers. A finished response body is a text, or the fault of reading it.
pub mod Json
pub mod Client
pub mod Handler
pub mod Requests
pub mod Commands
pub mod Blind
pub mod Noninterference
use Prim.Native.String.{◌++◌ as text_append}
use proctssor.Prelude.{
  ℕ, ℤ, String, ◌==◌, Bool, true, false, List, [], ◌∷◌, ◌++◌, Option, none, some, if◌then◌else◌,
  Result, ok, err,
}
use proctssor.Workers.Jira.Json.{
  Value, dict, texts, array, strings, text, integer, Dict, end, entry, nil, cons, Formats,
  replace_all, split_commas, encode_json,
}

pub record Issue : Type 0 where
  pub key : String
  pub id : String
  pub url : String
  pub summary : String
  pub type_name : String
  pub status : String
  pub description : String
  pub assignee : String
  pub reporter : String
  pub created : String
  pub updated : String
  pub labels : List String

pub record Transition : Type 0 where
  pub id : String
  pub name : String

pub record JiraClient : Type 0 where
  pub base_url : String
  pub username : String
  pub token : String
  pub connected : Bool

pub record Request : Type 0 where
  pub method : String
  pub url : String
  pub authorization : String
  pub body : Option String

abbrev pub Requests : Type 0
Requests = List Request

pub record HttpResponse : Type 0 where
  pub status : ℕ
  pub body : Result String String

-- `refuses` is the error of `http.NewRequestWithContext`, `send` is `httpClient.Do`.
pub record World : Type 0 where
  pub formats : Formats
  pub base64 : String → String
  pub equal_fold : String → String → Bool
  pub refuses : String → String → Option String
  pub send : Requests → Request → Result String HttpResponse

infixr 5 ◌&◌
abbrev pub ◌&◌ : String → String → String
a & b = text_append a b

-- `encodeJSON` of a body that may be nil.
unfoldable pub encode_body : Formats → Option Value → Result String (Option String)
encode_body fmt none = ok none
encode_body fmt (some v) = elim (encode_json fmt v) [ err e ↦ err e | ok s ↦ ok (some s) ]

-- `doRequest`, with `addAuthHeader`.
unfoldable pub do_request :
    World
    → JiraClient
    → Requests
    → String
    → String
    → Option Value
    → Result String HttpResponse × Requests
do_request w c t method url body = elim (encode_body w.formats body) [
  | err e ↦ (err e, t)
  | ok encoded ↦ elim (w.refuses method url) [
    | some e ↦ (err e, t)
    | none ↦
        let request : Request = record {
          method = method;
          url = url;
          authorization = "Basic " & w.base64 (c.username & ":" & c.token);
          body = encoded;
        } in
        (w.send t request, t ++ request ∷ [])
  ]
]

-- `decodeJSON` into a struct, by its zero value: the text is read and then let go. (No caller passes
-- a `*string`.)
unfoldable pub decode_json : {A : Type 0} → HttpResponse → A → Result String A
decode_json resp zero_value = elim resp.body [ err e ↦ err e | ok content ↦ ok zero_value ]

-- The rest of a method after `doRequest`: with an answer to decode, and without.
unfoldable pub decoded :
    {A B : Type 0}
    → Result String HttpResponse × Requests
    → A
    → (A → B)
    → Result String B × Requests
decoded (answer, t) zero_value use_result = elim answer [
  | err e ↦ (err e, t)
  | ok resp ↦ elim (decode_json resp zero_value) [
    | err e ↦ (err e, t)
    | ok result ↦ (ok (use_result result), t)
  ]
]

abbrev pub fault_of : {A : Type 0} → Result String A × Requests → Option String × Requests
fault_of (answer, t) = (elim answer [ err e ↦ some e | ok resp ↦ none ], t)

-- A text as a document.
abbrev pub document : String → Value
document s = dict (
    entry "type" (text "doc") (
      entry "version" (integer (ℤ.pos 1)) (
        entry "content"
          (array (
            cons
              (dict (
                entry "type" (text "paragraph") (
                  entry "content"
                    (array
                      (cons (dict (entry "type" (text "text") (entry "text" (text s) end))) nil))
                    end)))
              nil))
          end)))

abbrev pub with_description : String → Dict → Dict
with_description description d =
    if description == "" then d else entry "description" (document description) d

abbrev pub with_labels : String → Dict → Dict
with_labels labels d = if labels == "" then d else entry "labels" (strings (split_commas labels)) d

abbrev pub fields_body : Dict → Value
fields_body fields = dict (entry "fields" (dict fields) end)

abbrev pub blank : Issue
blank = record {
  key = "";
  id = "";
  url = "";
  summary = "";
  type_name = "";
  status = "";
  description = "";
  assignee = "";
  reporter = "";
  created = "";
  updated = "";
  labels = [];
}

abbrev pub issue_path : JiraClient → String → String
issue_path c key = c.base_url & "/rest/api/3/issue/" & key

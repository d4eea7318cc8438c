-- ===== src/Workers/Notification.antt =====
-- The notification service: notification-service/internal/service/handler.go. Parameters: the HTTP
-- client, with an answer for each request that sees the requests made before, JSON, the spelling of
-- header names and the formats of numbers.
pub mod Webhook
use Prim.Native.Nat.{ℕ, zero, suc}
use Prim.Native.String.{◌++◌ as text_append}
use proctssor.Prelude.{
  ℤ, String, ◌==◌, Bool, true, false, not, List, [], ◌∷◌, ◌++◌, Map, lookup, insert, Option, none,
  some, if◌then◌else◌, Result, ok, err, leb,
}
use proctssor.Workers.{
  Fields, WorkflowCommand, ServiceResponse, new_response, refuse, succeed, text_input, object_input,
  texts_of, require,
}

pub record Config : Type 0 where
  pub from_address : String
  pub default_channel : String
  pub slack_url : String
  pub retry_count : ℤ

pub record Request : Type 0 where
  pub method : String
  pub url : String
  pub headers : Map String
  pub body : Option String

abbrev pub Requests : Type 0
Requests = List Request

-- `send` gives the status and the body of the answer; `reads` is how much of the request's
-- body the client has read, and `count_text` is the text of the number after its argument.
pub record World : Type 0 where
  pub marshal : Fields → Result String String
  pub marshal_message : String → String → Result String String
  pub canonical : String → String
  pub status_text : ℕ → String
  pub count_text : ℤ → String
  pub refuses : String → String → Option String
  pub send : Requests → Request → Result String (ℕ × String)
  pub reads : Requests → Request → ℕ

pub data Output : Type 0 where
  text : String → Output
  flag : Bool → Output
  number : ℕ → Output

abbrev pub Response : Type 0
Response = ServiceResponse Output

abbrev required : Response → String → Response
required resp name = refuse resp "invalid_input" (text_append name " is required")

-- An optional input that must not be empty.
abbrev given : WorkflowCommand → String → String → String
given cmd name default = elim (text_input cmd name) [
  | none ↦ default
  | some s ↦ if s == "" then default else s
]

unfoldable pub handle_send_email : Config → ℕ → WorkflowCommand → Response → Response
handle_send_email cfg now cmd resp =
    require (text_input cmd "to") (required resp "to (recipient email)") λ to.
      require (text_input cmd "subject") (required resp "subject") λ subject.
        require (text_input cmd "body") (required resp "body") λ body. succeed resp (
          ("email_sent", flag true)
          ∷ ("recipient", text to)
          ∷ ("subject", text subject)
          ∷ ("from", text (given cmd "from" cfg.from_address))
          ∷ ("sent_at", number now)
          ∷ [])

-- Posting a message to Slack: none, or the error.
unfoldable pub post_message : World → Requests → String → String → String → Option String × Requests
post_message w t url message channel = elim (w.marshal_message message channel) [
  | err e ↦ (some (text_append "Failed to marshal Slack message: " e), t)
  | ok content ↦ elim (w.refuses "POST" url) [
    | some e ↦ (some (text_append "Failed to create Slack request: " e), t)
    | none ↦
        let request : Request = record {
          method = "POST";
          url = url;
          headers = ("Content-Type", "application/json") ∷ [];
          body = some content;
        } in
        (
          elim (w.send t request) [
            | err e ↦ some (text_append "Failed to send Slack message: " e)
            | ok answer ↦
                if leb 400 answer.0
                then some (text_append "Slack API returned status: " (w.status_text answer.0))
                else none
          ],
          t ++ request ∷ [],
        )
  ]
]

unfoldable pub handle_send_slack :
    Config → World → Requests → ℕ → WorkflowCommand → Response → Response × Requests
handle_send_slack cfg w t now cmd resp =
    require (text_input cmd "message") (required resp "message", t)
      λ message.
        let channel = given cmd "channel" cfg.default_channel in
        let url = given cmd "webhook_url" cfg.slack_url in
        let (fault, t') : Option String × Requests =
          if url == "" then (none, t) else post_message w t url message channel in
        elim fault [
          | some e ↦ (refuse resp "slack_error" e, t')
          | none ↦ (
            succeed resp (
                ("slack_sent", flag true)
                ∷ ("channel", text channel)
                ∷ ("message", text message)
                ∷ ("sent_at", number now)
                ∷ []),
            t',
          )
        ]

-- `headers.Add`, for one value under each name.
unfoldable pub headers_of : World → Map String → Map String
headers_of w [] = []
headers_of w (header ∷ l) = (w.canonical header.0, header.1) ∷ headers_of w l

unfoldable pub with_content_type : Map String → Map String
with_content_type headers = elim (lookup "Content-Type" headers) [
  | none ↦ insert "Content-Type" "application/json" headers
  | some s ↦ if s == "" then insert "Content-Type" "application/json" headers else headers
]

-- The reader of the request's body: nil, or the text.
unfoldable pub request_body : World → WorkflowCommand → Result String (Option String)
request_body w cmd =
    let by_object : Result String (Option String) = elim (object_input cmd "body") [
      | none ↦ ok none
      | some fields ↦ elim (w.marshal fields) [ err e ↦ err e | ok content ↦ ok (some content) ]
    ] in
    elim (text_input cmd "body") [
      | none ↦ by_object
      | some s ↦ if s == "" then by_object else ok (some s)
    ]

-- What is left in the reader. A text stands for its bytes.
unfoldable pub drop_text : ℕ → String → String
drop_text zero s = s
drop_text (suc n) String.[] = String.[]
drop_text (suc n) (String.◌∷◌ c s) = drop_text n s

abbrev pub left_in : ℕ → Option String → Option String
left_in n reader = elim reader [ none ↦ none | some s ↦ some (drop_text n s) ]

-- The loop over the attempts that are left. Every attempt reads from the one reader.
unfoldable pub try_webhook :
    World
    → String
    → String
    → Map String
    → ℕ
    → Option String
    → Option String
    → Requests
    → Result (Option String) (ℕ × String) × Requests
try_webhook w method url headers zero reader last t = (err last, t)
try_webhook w method url headers (suc left) reader last t = elim (w.refuses method url) [
  | some e ↦
      try_webhook w method url headers left reader
        (some (text_append "failed to create webhook request: " e)) t
  | none ↦
      let request : Request = record {
        method = method;
        url = url;
        headers = headers;
        body = reader;
      } in
      let reader' = left_in (w.reads t request) reader in
      elim (w.send t request) [
        | err e ↦
            try_webhook w method url headers left reader'
              (some (text_append "webhook request failed: " e)) (t ++ request ∷ [])
        | ok answer ↦
            let again =
              try_webhook w method url headers left reader'
                (some (
                  text_append "webhook returned status "
                    (text_append (w.status_text answer.0) (text_append ": " answer.1))))
                (t ++ request ∷ []) in
            if leb 400 answer.0 then again else (ok answer, t ++ request ∷ [])
      ]
]

-- The rounds of `for i := 0; i <= RetryCount; i++`.
unfoldable pub attempts : ℤ → ℕ
attempts (ℤ.pos n) = suc n
attempts (ℤ.negsuc n) = zero

unfoldable pub handle_send_webhook :
    Config → World → Requests → ℕ → WorkflowCommand → Response → Response × Requests
handle_send_webhook cfg w t now cmd resp =
    require (text_input cmd "url") (required resp "url", t)
      λ url.
        let method = given cmd "method" "POST" in
        elim (request_body w cmd) [
          | err e ↦
              (refuse resp "webhook_error" (text_append "Failed to marshal webhook body: " e), t)
          | ok reader ↦
              let inputs : Map String = elim (object_input cmd "headers") [
                | none ↦ []
                | some fs ↦ texts_of fs
              ] in
              let headers = with_content_type (headers_of w inputs) in
              let (r, t') =
                try_webhook w method url headers (attempts cfg.retry_count) reader none t in
              elim r [
                | ok answer ↦ (
                  succeed resp (
                      ("webhook_sent", flag true)
                      ∷ ("url", text url)
                      ∷ ("method", text method)
                      ∷ ("status_code", number answer.0)
                      ∷ ("response_body", text answer.1)
                      ∷ ("sent_at", number now)
                      ∷ []),
                  t',
                )
                | err last ↦ (
                  refuse resp "webhook_error" (
                      text_append "Failed after " (
                        text_append (w.count_text cfg.retry_count)
                          (text_append " retries: " (elim last [ none ↦ "<nil>" | some e ↦ e ])))),
                  t',
                )
              ]
        ]

unfoldable pub handle_health_check : Config → ℕ → Response → Response
handle_health_check cfg now resp = succeed resp (
    ("status", text "healthy")
    ∷ ("service_name", text "notification-service")
    ∷ ("email_configured", flag (not (cfg.from_address == "")))
    ∷ ("slack_configured", flag (not (cfg.slack_url == "")))
    ∷ ("timestamp", number now)
    ∷ [])

unfoldable pub handle_unknown_operation : WorkflowCommand → Response → Response
handle_unknown_operation cmd resp =
    refuse resp "unknown_operation" (text_append "Unknown operation: " cmd.operation)

-- `HandleCommand`; it returns no error.
unfoldable pub handle_command :
    Config → World → (ℕ → ℕ) → Requests → WorkflowCommand → Response × Requests
handle_command cfg w now t cmd =
    let resp : Response = new_response (now 0) cmd in
    if cmd.operation == "send_email"
    then (handle_send_email cfg (now 1) cmd resp, t)
    else if cmd.operation == "send_slack"
    then handle_send_slack cfg w t (now 1) cmd resp
    else if cmd.operation == "send_webhook"
    then handle_send_webhook cfg w t (now 1) cmd resp
    else if cmd.operation == "health_check"
    then (handle_health_check cfg (now 1) resp, t)
    else (handle_unknown_operation cmd resp, t)

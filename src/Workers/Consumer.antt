-- ===== src/Workers/Consumer.antt =====
-- The consumer of commands: internal/nats/consumer.go, which gitlab-service, jira-service,
-- vault-service and notification-service have word for word. JSON and JetStream are parameters.
pub mod Replies
use Prim.Native.String.{◌++◌ as text_append}
use proctssor.Prelude.{
  ℕ, String, ◌≡◌, refl, ◌∙◌, ap, Bool, true, false, List, [], ◌∷◌, ◌++◌, Option, none, some, Result,
  ok, err, is_some, arith, if◌then◌else◌, Option-cases, Result-cases, inl, inr,
}
use proctssor.Workers.{WorkflowCommand, ResponseStatus, ServiceResponse, new_response, refuse}

-- What the consumer does to the outside: a response on a subject, and the acknowledgement.
pub data Act (V : Type 0) : Type 0 where
  published : String → ServiceResponse V → Act V
  acknowledged : Act V

-- `json.Unmarshal` gives what it has read beside its error; `json.Marshal` and `Publish` may fail.
-- The handler has a state of its own.
pub record Worker (V S Message : Type 0) : Type 0 where
  pub decode : Message → WorkflowCommand × Option String
  pub encodes : ServiceResponse V → Bool
  pub handle : S → WorkflowCommand → Result String (ServiceResponse V) × S

-- `SendResponse`: a response that JSON refuses is not sent, and the error is only logged.
unfoldable pub send_response :
    {V S Message : Type 0} → Worker V S Message → ServiceResponse V → List (Act V)
send_response w resp =
    if w.encodes resp then Act.published (text_append "wf.resp." resp.instance_id) resp ∷ [] else []

unfoldable pub send_error_response :
    {V S Message : Type 0}
    → Worker V S Message
    → ℕ
    → WorkflowCommand
    → String
    → String
    → List (Act V)
unfolding send_response
send_error_response w now cmd code message =
    send_response w (refuse (new_response now cmd) code message)

unfoldable pub handle_message :
    {V S Message : Type 0} → Worker V S Message → ℕ → S → Message → List (Act V) × S
unfolding send_response send_error_response
handle_message w now s msg =
    let (cmd, fault) = w.decode msg in
    let (answer, s') = w.handle s cmd in
    elim fault [
      | some message ↦
          (send_error_response w now cmd "invalid_command" message ++ Act.acknowledged ∷ [], s)
      | none ↦ elim answer [
        | err message ↦
            (send_error_response w now cmd "handler_error" message ++ Act.acknowledged ∷ [], s')
        | ok resp ↦ (send_response w resp ++ Act.acknowledged ∷ [], s')
      ]
    ]

-- ===== src/Workers/Consumer/Replies.antt =====
-- What becomes of a message: internal/nats/consumer.go of the workers.
use Prim.Native.String.{◌++◌ as text_append}
use proctssor.Prelude.{
  ℕ, ◌≡◌, refl, ap, true, List, [], ◌∷◌, ◌++◌, ok, Option-cases, Result-cases, inl, inr,
}
use proctssor.Workers.{WorkflowCommand, ServiceResponse, IsAnswer}
use proctssor.Workers.Answers.{refuse-IsAnswer, differ}
use proctssor.Workers.Consumer.{Act, Worker, send_response, send_error_response, handle_message}

module _ {V S Message : Type 0} (w : Worker V S Message)
    (encodes : (resp : ServiceResponse V) → w.encodes resp ≡ true) where
  -- One response under the command's instance, then the acknowledgement.
  pub Replied : WorkflowCommand → List (Act V) → Type 0
  Replied cmd acts =
      (resp : ServiceResponse V) × (acts
        ≡ Act.published (text_append "wf.resp." cmd.instance_id) resp ∷ Act.acknowledged ∷ [])
      × IsAnswer cmd resp

  sent-Replied :
      (cmd : WorkflowCommand) (resp : ServiceResponse V)
      → IsAnswer cmd resp
      → Replied cmd (send_response w resp ++ Act.acknowledged ∷ [])
  unfolding send_response Replied
  sent-Replied cmd resp answer = (
    resp,
    rw (send_response, encodes resp)
        (ap (λ id. Act.published (text_append "wf.resp." id) resp ∷ Act.acknowledged ∷ [])
          answer.same_instance),
    answer,
  )

  -- If every response can be encoded and published and the handler answers the commands it is given, each message
  -- is answered once, under the instance of the command as far as it was read, and then acknowledged,
  -- also when the message is not a command and when the handler fails.
  pub handle_message_lem :
      ((s : S) (cmd : WorkflowCommand) (resp : ServiceResponse V)
        → (w.handle s cmd).0 ≡ ok resp
        → IsAnswer cmd resp)
      → (now : ℕ) (s : S) (msg : Message) → Replied (w.decode msg).0 (handle_message w now s msg).0
  unfolding handle_message send_error_response
  handle_message_lem answers now s msg =
      let cmd = (w.decode msg).0 in
      elim (Option-cases (w.decode msg).1) [
        | inr (message, unread) ↦
            rw (handle_message, unread)
              (sent-Replied cmd _ (
                refuse-IsAnswer now cmd "invalid_command" message
                  (differ "invalid_command" "" refl)))
        | inl read ↦ elim (Result-cases (w.handle s cmd).0) [
          | inl (resp, handled) ↦
              rw (handle_message, read, handled)
                (sent-Replied cmd resp (answers s cmd resp handled))
          | inr (message, faulted) ↦
              rw (handle_message, read, faulted)
                (sent-Replied cmd _ (
                  refuse-IsAnswer now cmd "handler_error" message (differ "handler_error" "" refl)))
        ]
      ]

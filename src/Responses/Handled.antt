-- ===== src/Responses/Handled.antt =====
-- What the handlers of responses are called with: engine/internal/integration/nats/subscriber.go.
use Prim.Native.Nat.{ℕ, ◌≤◌}
use mathlib.Core.List.{append_assoc}
use proctssor.Prelude.{
  ◌≡◌, refl, sym, ◌∙◌, ap, Bool, true, List, [], ◌∷◌, ◌++◌, Map, length, All, arith, Result-cases,
  inl, inr,
}
use proctssor.Responses.{
  ServiceResponse, success, error, timeout, other, Message, Act, succeeded, failed, closed,
  ResponseHandler, JetStream, capacity, send_to_dlq, handle_message, process_response, process_next,
  set_handlers, subscribe, start, subscribe_to_instance, unsubscribe_from_instance,
  all_unsubscribed, stop, Event, delivered, processed, handlers_set, instance_subscribed,
  instance_unsubscribed, started, stopped, step, run,
}
use proctssor.Responses.Queue.{List-cases, gather, gather-++, queued_in, taken_in, run-Passes}

-- The calls of the two handlers.
abbrev pub calls_in : Act → List Act
calls_in (succeeded r) = succeeded r ∷ []
calls_in (failed r) = failed r ∷ []
calls_in _ = []

-- Whose handler a response is for: an error and a timeout are a failure, any other text is nobody's.
abbrev pub call_of : ServiceResponse → List Act
call_of r = elim r.status [
  | success ↦ succeeded r ∷ []
  | error ↦ failed r ∷ []
  | timeout ↦ failed r ∷ []
  | other s ↦ []
]

abbrev pub calls_of : List ServiceResponse → List Act
calls_of [] = []
calls_of (r ∷ rs) = call_of r ++ calls_of rs

calls_of-++ : (a b : List ServiceResponse) → calls_of (a ++ b) ≡ calls_of a ++ calls_of b
calls_of-++ [] b = refl
calls_of-++ (r ∷ a) b =
    ap (λ l. call_of r ++ l) (calls_of-++ a b)
    ∙ sym (append_assoc (call_of r) (calls_of a) (calls_of b))

-- Both handlers are there, and an event leaves them there.
abbrev pub HasHandlers : ResponseHandler → Type 0
HasHandlers h = (h.success_set ≡ true) × (h.error_set ≡ true)

abbrev pub KeepsHandlers : Event → Type 0
KeepsHandlers (handlers_set a b) = (a ≡ true) × (b ≡ true)
KeepsHandlers _ = Unit

abbrev Called : List Act × ResponseHandler → Type 0
Called r = (gather calls_in r.0 ≡ calls_of (gather taken_in r.0)) × HasHandlers r.1

process_response-calls :
    (h : ResponseHandler) (r : ServiceResponse)
    → HasHandlers h
    → (gather calls_in (process_response h r) ≡ call_of r ++ [])
      × (gather taken_in (process_response h r) ≡ [])
unfolding process_response
process_response-calls h r there = ground (arith, there)

process_next-Called : (h : ResponseHandler) → HasHandlers h → Called (process_next h)
unfolding process_next
process_next-Called h there = elim (List-cases h.response_chan) [
  | inl empty ↦ rw (process_next, empty) (refl, there)
  | inr (response, rest, some_there) ↦
      let (calls, no_taken) = process_response-calls h response there in
      rw (process_next, some_there, calls, no_taken) (refl, there)
]

handle_message-Called :
    (js : JetStream) (now : ℕ) (h : ResponseHandler) (msg : Message)
    → HasHandlers h
    → Called (handle_message js now h msg)
unfolding handle_message send_to_dlq
handle_message-Called js now h msg there = elim (Result-cases (js.decode msg.content)) [
  | inr (e, unread) ↦ ground (arith, unread, there)
  | inl (decoded, read) ↦ ground (arith, read, there)
]

all_unsubscribed-Called :
    (m : Map Bool)
    → gather calls_in (all_unsubscribed m ++ closed ∷ [])
      ≡ calls_of (gather taken_in (all_unsubscribed m ++ closed ∷ []))
all_unsubscribed-Called [] = refl
all_unsubscribed-Called (entry ∷ m) = all_unsubscribed-Called m

step-Called :
    (js : JetStream) (h : ResponseHandler) (event : Event)
    → HasHandlers h
    → KeepsHandlers event
    → Called (step js h event)
unfolding step set_handlers start subscribe subscribe_to_instance unsubscribe_from_instance stop
step-Called js h (delivered now msg) there kept = handle_message-Called js now h msg there
step-Called js h processed there kept = process_next-Called h there
step-Called js h (handlers_set a b) there kept = (refl, kept)
step-Called js h (instance_subscribed id) there kept = ground (arith, there)
step-Called js h (instance_unsubscribed id) there kept = ground (arith, there)
step-Called js h started there kept = ground (arith, there)
step-Called js h stopped there kept = (all_unsubscribed-Called h.subscriptions, there)

run-Called :
    (js : JetStream) (h : ResponseHandler) (events : List Event)
    → HasHandlers h
    → All KeepsHandlers events
    → gather calls_in (run js h events).0 ≡ calls_of (gather taken_in (run js h events).0)
unfolding run
run-Called js h [] there kept = refl
run-Called js h (event ∷ events) there kept =
    let first = step-Called js h event there kept.0 in
    let h' = (step js h event).1 in
    let acts = (step js h event).0 in
    let more = (run js h' events).0 in
    gather-++ calls_in acts more
    ∙ ap (λ l. l ++ gather calls_in more) first.0
    ∙ ap (λ l. calls_of (gather taken_in acts) ++ l) (run-Called js h' events first.1 kept.1)
    ∙ sym (calls_of-++ (gather taken_in acts) (gather taken_in more))
    ∙ ap calls_of (sym (gather-++ taken_in acts more))

-- Through any run in which both handlers are there, the handlers are called for exactly the responses
-- that were in the channel and that go into it, each once and in that order, but for those that are in
-- the channel at the end: the success handler for a success, the error handler for an error and a
-- timeout, none for another status. A channel within its capacity stays so.
pub run-handles :
    (js : JetStream) (h : ResponseHandler) (events : List Event)
    → HasHandlers h
    → All KeepsHandlers events
    → (gather calls_in (run js h events).0 ++ calls_of (run js h events).1.response_chan
        ≡ calls_of (h.response_chan ++ gather queued_in (run js h events).0))
      × (length h.response_chan ≤ capacity → length (run js h events).1.response_chan ≤ capacity)
run-handles js h events there kept =
    let passes = run-Passes js h events in
    (
      ap (λ l. l ++ calls_of (run js h events).1.response_chan) (run-Called js h events there kept)
          ∙ sym
              (calls_of-++ (gather taken_in (run js h events).0) (run js h events).1.response_chan)
          ∙ ap calls_of (sym passes.fifo),
      passes.bounded,
    )

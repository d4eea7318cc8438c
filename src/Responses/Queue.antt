-- ===== src/Responses/Queue.antt =====
-- The queue of responses: engine/internal/integration/nats/subscriber.go.
use Prim.Native.Nat.{ℕ, ◌≤◌}
use mathlib.Core.List.{append_assoc, append-nil}
use proctssor.Prelude.{
  String, ◌≡◌, refl, sym, ◌∙◌, ap, Bool, List, [], ◌∷◌, ◌++◌, Map, lookup, length, length-append,
  leb, is_some, arith, Result-cases, Option-cases, Bool-cases, inl, inr, ◌⊎◌,
}
use proctssor.Responses.{
  ServiceResponse, Message, Act, acknowledged, refused, queued, taken, subscribed, unsubscribed,
  closed, ResponseHandler, JetStream, capacity, send_to_dlq, handle_message, process_response,
  process_next, set_handlers, subscribe, start, subscribe_to_instance, unsubscribe_from_instance,
  subject_of, all_unsubscribed, stop, Event, delivered, processed, handlers_set,
  instance_subscribed, instance_unsubscribed, started, stopped, step, run,
}

-- What the acts say of one kind, in order.
abbrev pub gather {ℓ} : {R : Type ℓ} → (Act → List R) → List Act → List R
gather f [] = []
gather f (act ∷ acts) = f act ++ gather f acts

pub gather-++ {ℓ} :
    {R : Type ℓ} (f : Act → List R) (a b : List Act) → gather f (a ++ b) ≡ gather f a ++ gather f b
gather-++ f [] b = refl
gather-++ f (act ∷ a) b =
    ap (λ l. f act ++ l) (gather-++ f a b) ∙ sym (append_assoc (f act) (gather f a) (gather f b))

-- What went into the channel, and what came out of it.
abbrev pub queued_in : Act → List ServiceResponse
queued_in (queued r) = r ∷ []
queued_in _ = []

abbrev pub taken_in : Act → List ServiceResponse
taken_in (taken r) = r ∷ []
taken_in _ = []

send_to_dlq-queued :
    (js : JetStream) (h : ResponseHandler) (msg : Message)
    → (gather queued_in (send_to_dlq js h msg) ≡ []) × (gather taken_in (send_to_dlq js h msg) ≡ [])
unfolding send_to_dlq
send_to_dlq-queued js h msg = ground arith

process_response-queued :
    (h : ResponseHandler) (r : ServiceResponse)
    → (gather queued_in (process_response h r) ≡ []) × (gather taken_in (process_response h r) ≡ [])
unfolding process_response
process_response-queued h r = ground arith

all_unsubscribed-queued :
    (m : Map Bool)
    → (gather queued_in (all_unsubscribed m) ≡ []) × (gather taken_in (all_unsubscribed m) ≡ [])
all_unsubscribed-queued [] = (refl, refl)
all_unsubscribed-queued (entry ∷ m) = all_unsubscribed-queued m

-- In order, nothing lost and nothing twice; and never more than the channel holds.
pub record Passes (h : ResponseHandler) (r : List Act × ResponseHandler) : Type 0 where
  pub fifo : h.response_chan ++ gather queued_in r.0 ≡ gather taken_in r.0 ++ r.1.response_chan
  pub bounded : length h.response_chan ≤ capacity → length r.1.response_chan ≤ capacity

-- Acts outside the channel.
still :
    (h h' : ResponseHandler) (acts : List Act)
    → gather queued_in acts ≡ []
    → gather taken_in acts ≡ []
    → h'.response_chan ≡ h.response_chan
    → Passes h (acts, h')
still h h' acts no_queued no_taken same = record {
  fifo = rw (no_queued, no_taken, same) (append-nil h.response_chan);
  bounded = λ small. rw same small;
}

parked-still :
    (js : JetStream) (h : ResponseHandler) (msg : Message) (last : Act)
    → queued_in last ≡ []
    → taken_in last ≡ []
    → Passes h (send_to_dlq js h msg ++ last ∷ [], h)
parked-still js h msg last no_queued no_taken =
    let (parked_queued, parked_taken) = send_to_dlq-queued js h msg in
    still h h (send_to_dlq js h msg ++ last ∷ [])
      (gather-++ queued_in (send_to_dlq js h msg) (last ∷ []) ∙ rw (parked_queued, no_queued) refl)
      (gather-++ taken_in (send_to_dlq js h msg) (last ∷ []) ∙ rw (parked_taken, no_taken) refl)
      refl

handle_message-Passes :
    (js : JetStream) (now : ℕ) (h : ResponseHandler) (msg : Message)
    → Passes h (handle_message js now h msg)
unfolding handle_message
handle_message-Passes js now h msg = elim (Result-cases (js.decode msg.content)) [
  | inr (e, unread) ↦ rw (handle_message, unread) (parked-still js h msg refused refl refl)
  | inl (decoded, read) ↦ elim (Bool-cases (leb capacity (length h.response_chan))) [
    | inl full ↦ rw (handle_message, read, full) (parked-still js h msg acknowledged refl refl)
    | inr room ↦
        rw (handle_message, read, room)
          (record {
            fifo = refl;
            bounded = λ small.
                ground (
                  arith,
                  length-append h.response_chan (record decoded { processed_at = now } ∷ []),
                );
          })
  ]
]

pub List-cases : {A : Type 0} (l : List A) → (l ≡ []) ⊎ ((a : A) × (rest : List A) × (l ≡ a ∷ rest))
List-cases [] = inl refl
List-cases (a ∷ rest) = inr (a, rest, refl)

process_next-Passes : (h : ResponseHandler) → Passes h (process_next h)
unfolding process_next
process_next-Passes h = elim (List-cases h.response_chan) [
  | inl empty ↦ record {
    fifo = rw (process_next, empty) (sym empty);
    bounded = rw (process_next, empty) λ small. rw empty small;
  }
  | inr (response, rest, there) ↦
      let (no_queued, no_taken) = process_response-queued h response in
      record {
        fifo = rw (process_next, there, no_queued, no_taken) (append-nil (response ∷ rest));
        bounded = rw (process_next, there) λ small. ground arith;
      }
]

subscribe-Passes :
    (js : JetStream) (h : ResponseHandler) (subject : String)
    → let (acts, e, h') = subscribe js h subject in Passes h (acts, h')
unfolding subscribe
subscribe-Passes js h subject = elim (Option-cases (js.subscribe subject)) [
  | inr (e, failed_with) ↦ rw (subscribe, failed_with) (still h h [] refl refl refl)
  | inl accepted ↦ rw (subscribe, accepted) (still h _ (subscribed subject ∷ []) refl refl refl)
]

step-Passes : (js : JetStream) (h : ResponseHandler) (event : Event) → Passes h (step js h event)
unfolding step set_handlers start subscribe_to_instance unsubscribe_from_instance stop
step-Passes js h (delivered now msg) = handle_message-Passes js now h msg
step-Passes js h processed = process_next-Passes h
step-Passes js h (handlers_set a b) = still h _ [] refl refl refl
step-Passes js h (instance_subscribed id) =
    elim (Bool-cases (is_some (lookup (subject_of id) h.subscriptions))) [
      | inl there ↦ rw (subscribe_to_instance, there) (still h h [] refl refl refl)
      | inr absent ↦ rw (subscribe_to_instance, absent) (subscribe-Passes js h (subject_of id))
    ]
step-Passes js h (instance_unsubscribed id) =
    elim (Bool-cases (is_some (lookup (subject_of id) h.subscriptions))) [
      | inl there ↦
          rw (unsubscribe_from_instance, there)
            (still h _ (unsubscribed (subject_of id) ∷ []) refl refl refl)
      | inr absent ↦ rw (unsubscribe_from_instance, absent) (still h h [] refl refl refl)
    ]
step-Passes js h started = subscribe-Passes js h "wf.resp.>"
step-Passes js h stopped =
    let (no_queued, no_taken) = all_unsubscribed-queued h.subscriptions in
    still h _ (all_unsubscribed h.subscriptions ++ closed ∷ [])
      (gather-++ queued_in (all_unsubscribed h.subscriptions) (closed ∷ []) ∙ rw no_queued refl)
      (gather-++ taken_in (all_unsubscribed h.subscriptions) (closed ∷ []) ∙ rw no_taken refl) refl

-- Through any run, what was in the channel and what goes into it come out in that order, each once,
-- but for what is in the channel at the end; and a channel within its capacity stays so.
pub run-Passes :
    (js : JetStream) (h : ResponseHandler) (events : List Event) → Passes h (run js h events)
unfolding run
run-Passes js h [] = still h h [] refl refl refl
run-Passes js h (event ∷ events) =
    let first = step-Passes js h event in
    let h' = (step js h event).1 in
    let rest = run-Passes js h' events in
    let acts = (step js h event).0 in
    let more = (run js h' events).0 in
    let last = (run js h' events).1.response_chan in
    record {
      fifo =
          ap (λ l. h.response_chan ++ l) (gather-++ queued_in acts more)
          ∙ sym (append_assoc h.response_chan (gather queued_in acts) (gather queued_in more))
          ∙ ap (λ l. l ++ gather queued_in more) first.fifo
          ∙ append_assoc (gather taken_in acts) h'.response_chan (gather queued_in more)
          ∙ ap (λ l. gather taken_in acts ++ l) rest.fifo
          ∙ sym (append_assoc (gather taken_in acts) (gather taken_in more) last)
          ∙ ap (λ l. l ++ last) (sym (gather-++ taken_in acts more));
      bounded = λ small. rest.bounded (first.bounded small);
    }

-- ===== src/Responses/Kept.antt =====
-- What becomes of a message that is delivered: engine/internal/integration/nats/subscriber.go.
use Prim.Native.Nat.{ℕ}
use Prim.Native.String.{◌++◌ as text_append}
use proctssor.Prelude.{
  String, ◌≡◌, refl, sym, subst, ◌∙◌, ap, map, leb, ok, err, Bool-cases, Bool, true, List, [], ◌∷◌,
  ◌++◌, Map, none, length, arith, Result-cases, inl, inr,
}
use proctssor.Responses.{
  ServiceResponse, Message, Act, acknowledged, refused, queued, parked, closed, ResponseHandler,
  JetStream, capacity, send_to_dlq, handle_message, process_response, process_next, set_handlers,
  subscribe, start, subscribe_to_instance, unsubscribe_from_instance, all_unsubscribed, stop, Event,
  delivered, processed, handlers_set, instance_subscribed, instance_unsubscribed, started, stopped,
  step, run,
}
use proctssor.Responses.Queue.{List-cases, gather, gather-++}

-- The acts that keep a message, and those that settle it with JetStream.
abbrev pub kept_in : Act → List Act
kept_in (queued r) = queued r ∷ []
kept_in (parked subject content) = parked subject content ∷ []
kept_in _ = []

abbrev pub settled_in : Act → List Act
settled_in acknowledged = acknowledged ∷ []
settled_in refused = refused ∷ []
settled_in _ = []

-- The messages of a run, with the times at which they are handled.
abbrev pub Delivery : Type 0
Delivery = ℕ × Message

abbrev pub deliveries : List Event → List Delivery
deliveries [] = []
deliveries (delivered now msg ∷ events) = (now, msg) ∷ deliveries events
deliveries (_ ∷ events) = deliveries events

-- What keeps a message: its response in the channel, or its content in the dead letter queue.
abbrev pub Keeps : JetStream → Delivery → Act → Type 0
Keeps js (now, msg) (queued r) =
    (decoded : ServiceResponse) × (js.decode msg.content ≡ ok decoded)
    × (r ≡ record decoded { processed_at = now })
Keeps js (now, msg) (parked subject content) =
    (subject ≡ text_append "wf.dlq." msg.subject) × (content ≡ msg.content)
Keeps js d _ = ⊥

-- One after the other, each by its own act.
abbrev pub AllKept : JetStream → List Delivery → List Act → Type 0
AllKept js [] [] = Unit
AllKept js (d ∷ ds) (act ∷ acts) = Keeps js d act × AllKept js ds acts
AllKept js _ _ = ⊥

-- A message that is no response is refused, each other one acknowledged.
abbrev pub settlement : JetStream → Delivery → Act
settlement js (now, msg) = elim (js.decode msg.content) [ ok r ↦ acknowledged | err e ↦ refused ]

settles_read :
    (js : JetStream) (now : ℕ) (msg : Message) (r : ServiceResponse)
    → js.decode msg.content ≡ ok r
    → settlement js (now, msg) ≡ acknowledged
settles_read js now msg r h = ground (arith, h)

settles_unread :
    (js : JetStream) (now : ℕ) (msg : Message) (e : String)
    → js.decode msg.content ≡ err e
    → settlement js (now, msg) ≡ refused
settles_unread js now msg e h = ground (arith, h)

AllKept-++ :
    (js : JetStream) (ds more : List Delivery) (acts acts' : List Act)
    → AllKept js ds acts
    → AllKept js more acts'
    → AllKept js (ds ++ more) (acts ++ acts')
AllKept-++ js [] more [] acts' h h' = h'
AllKept-++ js [] more (act ∷ acts) acts' h h' = absurd h
AllKept-++ js (d ∷ ds) more [] acts' h h' = absurd h
AllKept-++ js (d ∷ ds) more (act ∷ acts) acts' h h' = (h.0, AllKept-++ js ds more acts acts' h.1 h')

-- A step with its messages, kept and settled.
abbrev Counted : JetStream → ResponseHandler → List Delivery → List Act × ResponseHandler → Type 0
Counted js h ds r =
    AllKept js ds (gather kept_in r.0)
    × (gather settled_in r.0 ≡ map (settlement js) ds)
    × (r.1.dlq ≡ h.dlq)

module _ (js : JetStream)
    (parks : (subject content : String) → js.publishes subject content ≡ none) where
  send_to_dlq-parks :
      (h : ResponseHandler) (msg : Message)
      → h.dlq ≡ true
      → send_to_dlq js h msg ≡ parked (text_append "wf.dlq." msg.subject) msg.content ∷ []
  unfolding send_to_dlq
  send_to_dlq-parks h msg dlq =
      ground (arith, dlq, parks (text_append "wf.dlq." msg.subject) msg.content)

  handle_message-Counted :
      (now : ℕ) (h : ResponseHandler) (msg : Message)
      → h.dlq ≡ true
      → Counted js h ((now, msg) ∷ []) (handle_message js now h msg)
  unfolding handle_message
  handle_message-Counted now h msg dlq =
      let at_dlq = send_to_dlq-parks h msg dlq in
      elim (Result-cases (js.decode msg.content)) [
        | inr (e, unread) ↦
            rw (handle_message, unread, at_dlq)
              (
                ((refl, refl), tt),
                ap (λ a. a ∷ []) (sym (settles_unread js now msg e unread)),
                refl,
              )
        | inl (decoded, read) ↦ elim (Bool-cases (leb capacity (length h.response_chan))) [
          | inl full ↦
              rw (handle_message, read, full, at_dlq)
                (
                  ((refl, refl), tt),
                  ap (λ a. a ∷ []) (sym (settles_read js now msg decoded read)),
                  refl,
                )
          | inr room ↦
              rw (handle_message, read, room)
                (
                  ((decoded, read, refl), tt),
                  ap (λ a. a ∷ []) (sym (settles_read js now msg decoded read)),
                  refl,
                )
        ]
      ]

process_response-Counted :
    (h : ResponseHandler) (r : ServiceResponse)
    → (gather kept_in (process_response h r) ≡ []) × (gather settled_in (process_response h r) ≡ [])
unfolding process_response
process_response-Counted h r = ground arith

process_next-Counted : (js : JetStream) (h : ResponseHandler) → Counted js h [] (process_next h)
unfolding process_next
process_next-Counted js h = elim (List-cases h.response_chan) [
  | inl empty ↦ rw (process_next, empty) (tt, refl, refl)
  | inr (response, rest, there) ↦
      let (no_kept, no_settled) = process_response-Counted h response in
      rw (process_next, there, no_kept, no_settled) (tt, refl, refl)
]

all_unsubscribed-Counted :
    (m : Map Bool)
    → (gather kept_in (all_unsubscribed m) ≡ []) × (gather settled_in (all_unsubscribed m) ≡ [])
all_unsubscribed-Counted [] = (refl, refl)
all_unsubscribed-Counted (entry ∷ m) = all_unsubscribed-Counted m

step-Counted :
    (js : JetStream) (h : ResponseHandler) (event : Event)
    → ((subject content : String) → js.publishes subject content ≡ none)
    → h.dlq ≡ true
    → Counted js h (deliveries (event ∷ [])) (step js h event)
unfolding step set_handlers start subscribe subscribe_to_instance unsubscribe_from_instance stop
step-Counted js h (delivered now msg) parks dlq = handle_message-Counted js parks now h msg dlq
step-Counted js h processed parks dlq = process_next-Counted js h
step-Counted js h (handlers_set a b) parks dlq = (tt, refl, refl)
step-Counted js h (instance_subscribed id) parks dlq = ground arith
step-Counted js h (instance_unsubscribed id) parks dlq = ground arith
step-Counted js h started parks dlq = ground arith
step-Counted js h stopped parks dlq =
    let (no_kept, no_settled) = all_unsubscribed-Counted h.subscriptions in
    rw
      (
        gather-++ kept_in (all_unsubscribed h.subscriptions) (closed ∷ []),
        gather-++ settled_in (all_unsubscribed h.subscriptions) (closed ∷ []),
        no_kept,
        no_settled,
      )
      (tt, refl, refl)

deliveries-cons :
    (event : Event) (events : List Event)
    → deliveries (event ∷ []) ++ deliveries events ≡ deliveries (event ∷ events)
deliveries-cons event events = ground arith

map-++ : (f : Delivery → Act) (a b : List Delivery) → map f (a ++ b) ≡ map f a ++ map f b
map-++ f [] b = refl
map-++ f (d ∷ a) b = ap (λ l. f d ∷ l) (map-++ f a b)

-- With a dead letter queue that takes what it is given, every message that is delivered is kept, in
-- the order of the messages and each by an act of its own: either its response, with the time of its
-- handling, goes into the channel, or its content is parked under its subject in that queue. And each
-- is settled once: refused if it is no response, acknowledged else.
pub run-keeps :
    (js : JetStream) (h : ResponseHandler) (events : List Event)
    → ((subject content : String) → js.publishes subject content ≡ none)
    → h.dlq ≡ true
    → AllKept js (deliveries events) (gather kept_in (run js h events).0)
      × (gather settled_in (run js h events).0 ≡ map (settlement js) (deliveries events))
unfolding run
run-keeps js h [] parks dlq = (tt, refl)
run-keeps js h (event ∷ events) parks dlq =
    let (acts, h') = step js h event in
    let (kept, settled, same) = step-Counted js h event parks dlq in
    let (more_kept, more_settled) = run-keeps js h' events parks (same ∙ dlq) in
    let more = (run js h' events).0 in
    let split = deliveries-cons event events in
    (
      subst (λ ds. AllKept js ds (gather kept_in (acts ++ more))) split
          (subst (AllKept js (deliveries (event ∷ []) ++ deliveries events))
            (sym (gather-++ kept_in acts more))
            (AllKept-++ js (deliveries (event ∷ [])) (deliveries events) _ _ kept more_kept)),
      gather-++ settled_in acts more
          ∙ ap (λ l. l ++ gather settled_in more) settled
          ∙ ap (λ l. map (settlement js) (deliveries (event ∷ [])) ++ l) more_settled
          ∙ sym (map-++ (settlement js) (deliveries (event ∷ [])) (deliveries events))
          ∙ ap (map (settlement js)) split,
    )

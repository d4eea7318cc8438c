-- ===== src/Websocket/Runs.antt =====
-- Runs of the hub and its clients, and how a client makes the process panic:
-- engine/internal/api/websocket (hub.go and connection.go).
use proctssor.Prelude.{
  ℕ, String, ◌≡◌, refl, ◌∙◌, Bool, true, false, List, [], ◌∷◌, none, some, arith, Bool-cases, inl,
  inr, ◌&&◌, is_empty,
}
use proctssor.Websocket.Sets.{member}
use proctssor.Websocket.{
  Hub, members, try_send, register, unregister, Incoming, ping, subscribe, unsubscribe, malformed,
  other, send_json, handle_message, read_pump, write_pump, Event, registers, unregisters, writes,
  broadcasts, receives, step, run,
}
use proctssor.Websocket.Safety.{
  IsSafe, broadcast_lem, register-IsSafe, unregister-IsSafe, send_json-IsSafe, with_client-IsSafe,
  unregister-member, gone,
}

abbrev pub is_answered : Incoming → Bool
is_answered ping = true
is_answered subscribe = true
is_answered unsubscribe = false
is_answered malformed = true
is_answered other = false

-- A client is registered while it is open, and what it sends while closed is not answered.
abbrev pub IsAllowed : Hub → Event → Type 0
IsAllowed h (registers id) = (h.client id).closed ≡ false
IsAllowed h (unregisters id) = Unit
IsAllowed h (writes id) = Unit
IsAllowed h (broadcasts k message) = Unit
IsAllowed h (receives id m reply) = is_answered m ≡ true → (h.client id).closed ≡ false

write_pump-IsSafe : (h : Hub) (id : ℕ) → IsSafe h → IsSafe (write_pump h id)
unfolding write_pump
write_pump-IsSafe h id safe =
    elim (Bool-cases (is_empty (h.client id).send && (h.client id).closed)) [
      | inl ended ↦
          rw (write_pump, ended)
            (with_client-IsSafe h id (record (h.client id) { connected = false }) safe refl refl
              (safe.bounded id))
      | inr going ↦
          rw (write_pump, going)
            (with_client-IsSafe h id (record (h.client id) { send = [] }) safe refl refl
              (omega arith))
    ]

handle_message-IsSafe :
    (h : Hub) (id : ℕ) (m : Incoming) (reply : String)
    → IsSafe h
    → (is_answered m ≡ true → (h.client id).closed ≡ false)
    → (h' : Hub) × (handle_message h id m reply ≡ some h') × IsSafe h'
unfolding handle_message
handle_message-IsSafe h id ping reply safe allowed = send_json-IsSafe h id reply safe (allowed refl)
handle_message-IsSafe h id subscribe reply safe allowed =
    send_json-IsSafe h id reply safe (allowed refl)
handle_message-IsSafe h id unsubscribe reply safe allowed = (h, refl, safe)
handle_message-IsSafe h id malformed reply safe allowed =
    send_json-IsSafe h id reply safe (allowed refl)
handle_message-IsSafe h id other reply safe allowed = (h, refl, safe)

step-IsSafe :
    (h : Hub) (e : Event) → IsSafe h → IsAllowed h e → (h' : Hub) × (step h e ≡ some h') × IsSafe h'
unfolding step read_pump handle_message
step-IsSafe h (registers id) safe allowed = (register h id, refl, register-IsSafe h id safe allowed)
step-IsSafe h (unregisters id) safe allowed = unregister-IsSafe h id safe
step-IsSafe h (writes id) safe allowed = (write_pump h id, refl, write_pump-IsSafe h id safe)
step-IsSafe h (broadcasts k message) safe allowed =
    let (h', done, _, safe') = broadcast_lem h k message safe in (h', done, safe')
step-IsSafe h (receives id m reply) safe allowed = elim (Bool-cases (h.client id).connected) [
  | inl there ↦
      let (h', done, safe') = handle_message-IsSafe h id m reply safe allowed in
      (h', rw (read_pump, there) done, safe')
  | inr left ↦ (h, rw (read_pump, left) refl, safe)
]

-- Every event of a run is allowed where it happens.
abbrev pub AllAllowed : Hub → List Event → Type 0
AllAllowed h [] = Unit
AllAllowed h (e ∷ es) = IsAllowed h e × ((h' : Hub) → step h e ≡ some h' → AllAllowed h' es)

-- From a safe hub, a run in which clients are registered only while they are open, and are not
-- answered once they are closed, does not panic, and leads to a safe hub: every registered client is
-- open and registered once, under its own instance, and no buffer holds more than 256 messages.
pub run-IsSafe :
    (h : Hub) (events : List Event)
    → IsSafe h
    → AllAllowed h events
    → (h' : Hub) × (run h events ≡ some h') × IsSafe h'
unfolding run
run-IsSafe h [] safe allowed = (h, refl, safe)
run-IsSafe h (e ∷ es) safe allowed =
    let (h1, done, safe1) = step-IsSafe h e safe allowed.0 in
    let (h2, rest, safe2) = run-IsSafe h1 es safe1 (allowed.1 h1 done) in
    (h2, rw (done, run) rest, safe2)

-- A schedule that makes the process panic, whatever follows: a registered client on an open connection
-- unsubscribes, the hub takes it and closes its channel, and before WritePump has closed the connection
-- ReadPump reads anything that is answered.
pub unsubscribe_panics :
    (h : Hub) (id : ℕ) (m : Incoming) (reply reply' : String) (events : List Event)
    → IsSafe h
    → member id (members h (h.client id).instance_id) ≡ true
    → (h.client id).connected ≡ true
    → is_answered m ≡ true
    → run h (receives id unsubscribe reply ∷ unregisters id ∷ receives id m reply' ∷ events) ≡ none
unfolding run step read_pump handle_message send_json try_send
unsubscribe_panics h id m reply reply' events safe there connected answered =
    let left : unregister h id ≡ some (gone h id) = unregister-member h id safe ∙ rw there refl in
    rw (run, read_pump, connected, left) (closed_panics m answered)
  where
    closed_panics :
        (m : Incoming)
        → is_answered m ≡ true
        → run (gone h id) (receives id m reply' ∷ events) ≡ none
    closed_panics ping a = ground (arith, connected)
    closed_panics subscribe a = ground (arith, connected)
    closed_panics unsubscribe a = cc
    closed_panics malformed a = ground (arith, connected)
    closed_panics other a = cc

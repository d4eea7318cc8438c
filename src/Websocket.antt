-- ===== src/Websocket.antt =====
-- The hub of web socket clients: engine/internal/api/websocket (hub.go and connection.go). A client
-- is known by its pointer, a number here; the hub and the clients are one state, and each case of
-- the hub's `select`, each incoming message and each round of WritePump is one step. `none` is a
-- panic of the process; the order of the events is the schedule of the goroutines. Deadlines and the frames on the wire are left out.
pub mod Sets
pub mod Broadcast
pub mod Safety
pub mod Runs
use proctssor.Prelude.{
  ℕ, String, Bool, true, false, List, [], ◌∷◌, ◌++◌, Map, lookup, insert, erase, Option, none, some,
  if◌then◌else◌, ◌&&◌, is_empty, length, ltb,
}
use proctssor.Websocket.Sets.{eqb, member, add, remove}

-- `send` is the channel: what is buffered in it, and whether it is closed; `connected` tells whether
-- the connection is still open.
pub record Client : Type 0 where
  pub instance_id : String
  pub send : List String
  pub closed : Bool
  pub connected : Bool

pub record Hub : Type 0 where
  pub clients : Map (List ℕ)
  pub client : ℕ → Client

-- `make(chan []byte, 256)`.
abbrev pub buffer : ℕ
buffer = 256

unfoldable pub new_client : String → Client
new_client instance_id = record {
  instance_id = instance_id;
  send = [];
  closed = false;
  connected = true;
}

abbrev pub with_client : Hub → ℕ → Client → Hub
with_client h id c = record h { client = λ j. if eqb id j then c else h.client j }

-- `h.clients[instanceID]`: a nil map has no entries.
abbrev pub members : Hub → String → List ℕ
members h instance_id = elim (lookup instance_id h.clients) [ none ↦ [] | some ids ↦ ids ]

-- `select { case c.send <- message: ... default: ... }`.
pub data Sending : Type 0 where
  sent : Client → Sending
  full panics : Sending

unfoldable pub try_send : Client → String → Sending
try_send c message =
    if c.closed
    then panics
    else if ltb (length c.send) buffer
    then sent (record c { send = c.send ++ message ∷ [] })
    else full

-- `close(client.send)`.
unfoldable pub close : Client → Option Client
close c = if c.closed then none else some (record c { closed = true })

unfoldable pub register : Hub → ℕ → Hub
register h id =
    let instance_id = (h.client id).instance_id in
    record h { clients = insert instance_id (add id (members h instance_id)) h.clients }

unfoldable pub unregister : Hub → ℕ → Option Hub
unregister h id =
    let instance_id = (h.client id).instance_id in
    let rest = remove id (members h instance_id) in
    let clients' =
      if is_empty rest then erase instance_id h.clients else insert instance_id rest h.clients in
    if member id (members h instance_id)
    then elim (close (h.client id)) [
      | none ↦ none
      | some c ↦ some (record (with_client h id c) { clients = clients' })
    ]
    else some h

-- The loop over the clients of an instance: one whose buffer is full is closed and removed.
unfoldable pub broadcast_to : String → String → Hub → List ℕ → Option Hub
broadcast_to instance_id message h [] = some h
broadcast_to instance_id message h (id ∷ ids) = elim (try_send (h.client id) message) [
  | panics ↦ none
  | sent c ↦ broadcast_to instance_id message (with_client h id c) ids
  | full ↦ elim (close (h.client id)) [
    | none ↦ none
    | some c ↦
        let rest = remove id (members h instance_id) in
        broadcast_to instance_id message
          (record (with_client h id c) { clients = insert instance_id rest h.clients }) ids
  ]
]

unfoldable pub broadcast : Hub → String → String → Option Hub
broadcast h instance_id message = broadcast_to instance_id message h (members h instance_id)

unfoldable pub get_client_count : Hub → String → ℕ
get_client_count h instance_id = length (members h instance_id)

-- What a client may send, by its `type`; `malformed` is no JSON.
pub data Incoming : Type 0 where
  ping subscribe unsubscribe malformed other : Incoming

-- `sendJSON` of a text that `json.Marshal` made: a full buffer drops it.
unfoldable pub send_json : Hub → ℕ → String → Option Hub
send_json h id reply = elim (try_send (h.client id) reply) [
  | panics ↦ none
  | sent c ↦ some (with_client h id c)
  | full ↦ some h
]

-- Unsubscribing hands the client to the hub, which takes it as an event of its own, `unregisters`.
unfoldable pub handle_message : Hub → ℕ → Incoming → String → Option Hub
unfolding send_json
handle_message h id ping reply = send_json h id reply
handle_message h id subscribe reply = send_json h id reply
handle_message h id unsubscribe reply = some h
handle_message h id malformed reply = send_json h id reply
handle_message h id other reply = some h

-- A round of `ReadPump`: on a connection that is closed nothing is read, and the client is handed to
-- the hub.
unfoldable pub read_pump : Hub → ℕ → Incoming → String → Option Hub
read_pump h id m reply = if (h.client id).connected then handle_message h id m reply else some h

-- A round of `WritePump`: all that is buffered leaves in one message; where nothing is and the hub has
-- closed the channel, the connection is closed.
unfoldable pub write_pump : Hub → ℕ → Hub
write_pump h id =
    let c = h.client id in
    if is_empty c.send && c.closed
    then with_client h id (record c { connected = false })
    else with_client h id (record c { send = [] })

pub data Event : Type 0 where
  registers unregisters writes : ℕ → Event
  broadcasts : String → String → Event
  receives : ℕ → Incoming → String → Event

unfoldable pub step : Hub → Event → Option Hub
step h (registers id) = some (register h id)
step h (unregisters id) = unregister h id
step h (writes id) = some (write_pump h id)
step h (broadcasts instance_id message) = broadcast h instance_id message
step h (receives id m reply) = read_pump h id m reply

unfoldable pub run : Hub → List Event → Option Hub
run h [] = some h
run h (e ∷ es) = elim (step h e) [ none ↦ none | some h' ↦ run h' es ]

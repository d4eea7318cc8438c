-- ===== src/Websocket/Broadcast.antt =====
-- What a broadcast does to each client: the loop of `Run` in engine/internal/api/websocket/hub.go.
use proctssor.Prelude.{
  ℕ, String, ◌==◌, eq_iff, ◌≡◌, refl, ◌∙◌, Bool, true, false, not, ◌&&◌, List, [], ◌∷◌, ◌++◌,
  insert, lookup-insert, some, if◌then◌else◌, length, ltb, All, arith, Bool-cases, inl, inr,
}
use proctssor.Websocket.Sets.{eqb, member, remove, IsDistinct, member-remove, remove-IsDistinct}
use proctssor.Websocket.{
  Client, Hub, buffer, with_client, members, try_send, sent, full, close, broadcast_to,
}

abbrev pub has_room : Client → Bool
has_room c = ltb (length c.send) buffer

-- What one broadcast does to a client: the message is buffered, or the client is closed.
abbrev pub offer : String → Client → Client
offer message c =
    if has_room c then record c { send = c.send ++ message ∷ [] } else record c { closed = true }

-- An open client of the loop takes the message or is dropped, and the others stay.
pub members-insert :
    (h : Hub) (k : String) (ids : List ℕ) (j : String)
    → members (record h { clients = insert k ids h.clients }) j
      ≡ (if k == j then ids else members h j)
members-insert h k ids j = ground (arith, lookup-insert k j ids h.clients)

-- The hub behind one round of the loop.
abbrev after : String → String → Hub → ℕ → Hub
after k message h id =
    let h' = with_client h id (offer message (h.client id)) in
    if has_room (h.client id)
    then h'
    else record h' { clients = insert k (remove id (members h k)) h.clients }

pub try_send-open :
    (c : Client) (message : String)
    → c.closed ≡ false
    → try_send c message
      ≡ (if has_room c then sent (record c { send = c.send ++ message ∷ [] }) else full)
unfolding try_send
try_send-open c message h = ground (arith, h)

close-open : (c : Client) → c.closed ≡ false → close c ≡ some (record c { closed = true })
unfolding close
close-open c h = ground (arith, h)

broadcast_to-cons :
    (k message : String) (h : Hub) (id : ℕ) (ids : List ℕ)
    → (h.client id).closed ≡ false
    → broadcast_to k message h (id ∷ ids) ≡ broadcast_to k message (after k message h id) ids
unfolding broadcast_to
broadcast_to-cons k message h id ids h0 = elim (Bool-cases (has_room (h.client id))) [
  | inl room ↦ rw (broadcast_to, try_send-open (h.client id) message h0, room) refl
  | inr none_left ↦
      rw
        (
          broadcast_to,
          try_send-open (h.client id) message h0,
          none_left,
          close-open (h.client id) h0,
        )
        refl
]

after-client :
    (k message : String) (h : Hub) (id j : ℕ)
    → (after k message h id).client j
      ≡ (if eqb id j then offer message (h.client id) else h.client j)
after-client k message h id j = elim (Bool-cases (has_room (h.client id))) [
  | inl room ↦ rw room refl
  | inr none_left ↦ rw none_left refl
]

after-member :
    (k message : String) (h : Hub) (id j : ℕ) (i : String)
    → member j (members (after k message h id) i) ≡ (
        if (k == i && eqb id j) && not (has_room (h.client id))
        then false
        else member j (members h i))
after-member k message h id j i = elim (Bool-cases (has_room (h.client id))) [
  | inl room ↦ rw room (ground arith)
  | inr none_left ↦ rw none_left (
      ground (
        arith,
        members-insert h k (remove id (members h k)) i,
        member-remove j id (members h k),
        eq_iff k i,
      ))
]

-- All clients of a list are open.
abbrev pub AllOpen : Hub → List ℕ → Type 0
AllOpen h ids = All (λ id. (h.client id).closed ≡ false) ids

after-AllOpen :
    (k message : String) (h : Hub) (id : ℕ) (ids : List ℕ)
    → member id ids ≡ false
    → AllOpen h ids
    → AllOpen (after k message h id) ids
after-AllOpen k message h id [] out o = tt
after-AllOpen k message h id (j ∷ ids) out o = (
  rw (after-client k message h id j) (ground (arith, out, o.0)),
  after-AllOpen k message h id ids (ground (arith, out)) o.1,
)

-- The hub behind the loop, client by client and set by set.
pub record Spread (k message : String) (h : Hub) (ids : List ℕ) (h' : Hub) : Type 0 where
  pub reached :
      (j : ℕ) → h'.client j ≡ (if member j ids then offer message (h.client j) else h.client j)
  pub kept :
      (i : String) (j : ℕ)
      → member j (members h' i) ≡ (
          if (k == i && member j ids) && not (has_room (h.client j))
          then false
          else member j (members h i))
  pub apart : ((i : String) → IsDistinct (members h i)) → (i : String) → IsDistinct (members h' i)

after-IsDistinct :
    (k message : String) (h : Hub) (id : ℕ) (i : String)
    → IsDistinct (members h k)
    → IsDistinct (members h i)
    → IsDistinct (members (after k message h id) i)
after-IsDistinct k message h id i d e = elim (Bool-cases (has_room (h.client id))) [
  | inl room ↦ rw room e
  | inr none_left ↦
      rw (none_left, members-insert h k (remove id (members h k)) i)
        (ground (arith, e, remove-IsDistinct id (members h k) d))
]

Spread-cons :
    (k message : String) (h : Hub) (id : ℕ) (ids : List ℕ) (h' : Hub)
    → member id ids ≡ false
    → Spread k message (after k message h id) ids h'
    → Spread k message h (id ∷ ids) h'
Spread-cons k message h id ids h' out s = record {
  reached = λ j. ground (arith, out, s.reached j, after-client k message h id j);
  kept = λ i j.
      ground
        (arith, out, s.kept i j, after-client k message h id j, after-member k message h id j i);
  apart = λ d i. s.apart (λ l. after-IsDistinct k message h id l (d k) (d l)) i;
}

pub broadcast_to_lem :
    (k message : String) (h : Hub) (ids : List ℕ)
    → IsDistinct ids
    → AllOpen h ids
    → (h' : Hub) × (broadcast_to k message h ids ≡ some h') × Spread k message h ids h'
unfolding broadcast_to
broadcast_to_lem k message h [] d o =
    (h, refl, record { reached = λ j. refl; kept = λ i j. ground arith; apart = λ d. d })
broadcast_to_lem k message h (id ∷ ids) d o =
    let (h', done, s) =
      broadcast_to_lem k message (after k message h id) ids d.1
        (after-AllOpen k message h id ids d.0 o.1) in
    (h', broadcast_to-cons k message h id ids o.0 ∙ done, Spread-cons k message h id ids h' d.0 s)

-- ===== src/Websocket/Safety.antt =====
-- The hub never closes a channel twice and never sends on a closed one; a client can make it:
-- engine/internal/api/websocket (hub.go and connection.go).
use proctssor.Prelude.{
  ℕ, ◌≤◌, String, ◌==◌, eq_iff, ◌≡◌, refl, ◌∙◌, true, false, List, [], ◌∷◌, ◌++◌, insert, erase,
  lookup-erase, some, if◌then◌else◌, length, is_empty, length-append, arith, Bool-cases, inl, inr,
}
use proctssor.Websocket.Sets.{
  member, add, remove, IsDistinct, member-add, member-remove, add-IsDistinct, remove-IsDistinct,
}
use proctssor.Websocket.{
  Client, Hub, buffer, with_client, members, close, register, unregister, broadcast, send_json,
}
use proctssor.Websocket.Broadcast.{
  has_room, AllOpen, try_send-open, members-insert, Spread, broadcast_to_lem,
}

pub record IsSafe (h : Hub) : Type 0 where
  pub registered :
      (k : String) (j : ℕ)
      → member j (members h k) ≡ true
      → ((h.client j).closed ≡ false) × ((h.client j).instance_id ≡ k)
  pub distinct : (k : String) → IsDistinct (members h k)
  pub bounded : (j : ℕ) → length (h.client j).send ≤ buffer

AllOpen-of :
    (h : Hub) (k : String) (ids : List ℕ)
    → ((j : ℕ) → member j ids ≡ true → (h.client j).closed ≡ false)
    → AllOpen h ids
AllOpen-of h k [] f = tt
AllOpen-of h k (id ∷ ids) f =
    (f id (ground arith), AllOpen-of h k ids (λ j m. f j (ground (arith, m))))

-- A broadcast on a safe hub does not panic. It hands the message to exactly the clients of the
-- instance: one with room in its buffer gets it at the end, one without is closed and leaves the
-- set, and no other client and no other set changes. The hub stays safe.
pub broadcast_lem :
    (h : Hub) (k message : String)
    → IsSafe h
    → (h' : Hub) × (broadcast h k message ≡ some h')
      × Spread k message h (members h k) h'
      × IsSafe h'
unfolding broadcast
broadcast_lem h k message safe =
    let open_members = AllOpen-of h k (members h k) (λ j m. (safe.registered k j m).0) in
    let (h', done, s) = broadcast_to_lem k message h (members h k) (safe.distinct k) open_members in
    (
      h',
      done,
      s,
      record {
        registered = λ i j m. ground (
          arith,
          m,
          s.kept i j,
          s.reached j,
          safe.registered i j,
          safe.registered k j,
          eq_iff k i,
        );
        distinct = s.apart safe.distinct;
        bounded = λ j.
            ground
              (arith, s.reached j, safe.bounded j, length-append (h.client j).send (message ∷ []));
      },
    )

-- A step that changes one client to `c`, and no set.
pub with_client-IsSafe :
    (h : Hub) (id : ℕ) (c : Client)
    → IsSafe h
    → c.closed ≡ (h.client id).closed
    → c.instance_id ≡ (h.client id).instance_id
    → length c.send ≤ buffer
    → IsSafe (with_client h id c)
with_client-IsSafe h id c safe same_closed same_id fits = record {
  registered = λ k j m. ground (arith, m, safe.registered k j, same_closed, same_id);
  distinct = λ k. safe.distinct k;
  bounded = λ j. ground (arith, safe.bounded j, fits);
}

pub register-IsSafe :
    (h : Hub) (id : ℕ) → IsSafe h → (h.client id).closed ≡ false → IsSafe (register h id)
unfolding register
register-IsSafe h id safe opened =
    let k = (h.client id).instance_id in
    let now_members = members-insert h k (add id (members h k)) in
    record {
      registered = λ i j m. ground (
        arith,
        m,
        now_members i,
        member-add j id (members h k),
        safe.registered i j,
        eq_iff k i,
        opened,
      );
      distinct = λ i.
          rw (now_members i)
            (ground (arith, add-IsDistinct id (members h k) (safe.distinct k), safe.distinct i));
      bounded = safe.bounded;
    }

members-shrink :
    (h : Hub) (k : String) (rest : List ℕ) (j : String)
    → members
        (record h {
          clients = if is_empty rest then erase k h.clients else insert k rest h.clients;
        })
        j
      ≡ (if k == j then rest else members h j)
members-shrink h k [] j = ground (arith, lookup-erase k j h.clients)
members-shrink h k (i ∷ rest) j = members-insert h k (i ∷ rest) j

-- The hub behind the removal of a client that is registered.
abbrev pub gone : Hub → ℕ → Hub
gone h id =
    let k = (h.client id).instance_id in
    let rest = remove id (members h k) in
    record (with_client h id (record (h.client id) { closed = true })) {
      clients = if is_empty rest then erase k h.clients else insert k rest h.clients;
    }

gone-IsSafe : (h : Hub) (id : ℕ) → IsSafe h → IsSafe (gone h id)
gone-IsSafe h id safe =
    let k = (h.client id).instance_id in
    let now_members = members-shrink h k (remove id (members h k)) in
    record {
      registered = λ i j m. ground (
        arith,
        m,
        now_members i,
        member-remove j id (members h k),
        safe.registered i j,
        eq_iff k i,
      );
      distinct = λ i.
          rw (now_members i)
            (ground (arith, remove-IsDistinct id (members h k) (safe.distinct k), safe.distinct i));
      bounded = λ j. ground (arith, safe.bounded j);
    }

pub unregister-member :
    (h : Hub) (id : ℕ)
    → IsSafe h
    → unregister h id
      ≡ some (if member id (members h (h.client id).instance_id) then gone h id else h)
unfolding unregister close
unregister-member h id safe =
    let k = (h.client id).instance_id in
    elim (Bool-cases (member id (members h k))) [
      | inl there ↦ rw (there, (safe.registered k id there).0) refl
      | inr absent ↦ rw absent refl
    ]

pub unregister-IsSafe :
    (h : Hub) (id : ℕ) → IsSafe h → (h' : Hub) × (unregister h id ≡ some h') × IsSafe h'
unregister-IsSafe h id safe =
    let k = (h.client id).instance_id in
    elim (Bool-cases (member id (members h k))) [
      | inl there ↦ (gone h id, unregister-member h id safe ∙ rw there refl, gone-IsSafe h id safe)
      | inr absent ↦ (h, unregister-member h id safe ∙ rw absent refl, safe)
    ]

pub send_json-IsSafe :
    (h : Hub) (id : ℕ) (reply : String)
    → IsSafe h
    → (h.client id).closed ≡ false
    → (h' : Hub) × (send_json h id reply ≡ some h') × IsSafe h'
unfolding send_json
send_json-IsSafe h id reply safe opened = elim (Bool-cases (has_room (h.client id))) [
  | inl room ↦
      let c = record (h.client id) { send = (h.client id).send ++ reply ∷ [] } in
      (
        with_client h id c,
        rw (send_json, try_send-open (h.client id) reply opened, room) refl,
        with_client-IsSafe h id c safe refl refl
            (ground (arith, room, length-append (h.client id).send (reply ∷ []))),
      )
  | inr none_left ↦
      (h, rw (send_json, try_send-open (h.client id) reply opened, none_left) refl, safe)
]

-- ===== src/Registry/Cache/Bound.antt =====
-- The size of the cache through any calls.
use proctssor.Prelude.{
  ℕ, ◌≤◌, ◌<◌, ◌-◌, String, ◌==◌, eq_iff, ◌≡◌, ◌≢◌, refl, sym, ◌∙◌, true, false, [], ◌∷◌, Map,
  lookup, insert, erase, lookup-erase, is_some, length, leb, ltb, arith, Bool-cases, Option-cases,
  inl, inr,
}
use proctssor.Registry.Cache.{
  CacheEntry, LruCache, remove, move_to_front, back, get, evict_oldest, set_item, drop_expired,
}
use proctssor.Registry.Cache.Order.{has, has-remove, has-back, back-named}
use proctssor.Registry.Cache.Table.{length-insert, length-erase}
use proctssor.Registry.Cache.Synced.{IsSynced, drop-IsSynced, touch-IsSynced, push-IsSynced}

-- The cache is in order: both views of the keys agree, the empty text is no key, and the bound,
-- which is positive, holds.
pub record IsBounded {V : Type 0} (c : LruCache V) : Type 0 where
  pub synced : IsSynced c.items c.keys
  pub named : has "" c.keys ≡ false
  pub bound : length c.items ≤ c.max_entries
  pub positive : 1 ≤ c.max_entries

module _ {V : Type 0} where
  pub drop-IsBounded :
      (key : String) (c c' : LruCache V)
      → IsBounded c
      → c'.items ≡ erase key c.items
      → c'.keys ≡ remove key c.keys
      → c'.max_entries ≡ c.max_entries
      → IsBounded c'
  drop-IsBounded key c c' h items keys same_bound = record {
    synced = rw (items, keys) (drop-IsSynced key c.items c.keys h.synced);
    named = rw keys (has-remove key "" c.keys h.synced.distinct ∙ ground (arith, h.named));
    bound =
        rw (items, same_bound) (omega (arith, h.bound, length-erase key c.items h.synced.keyed));
    positive = rw same_bound h.positive;
  }

  touch-IsBounded :
      (key : String) (v : CacheEntry V) (c c' : LruCache V)
      → IsBounded c
      → is_some (lookup key c.items) ≡ true
      → c'.items ≡ insert key v c.items
      → c'.keys ≡ move_to_front key c.keys
      → c'.max_entries ≡ c.max_entries
      → IsBounded c'
  unfolding move_to_front has
  touch-IsBounded key v c c' h here items keys same_bound = record {
    synced = rw (items, keys) (touch-IsSynced key v c.items c.keys here h.synced);
    named = rw keys (
        ground (
          arith,
          here,
          h.synced.same key,
          h.named,
          has-remove key "" c.keys h.synced.distinct,
          eq_iff key "",
        ));
    bound = rw (items, same_bound) (ground (arith, here, h.bound, length-insert key v c.items));
    positive = rw same_bound h.positive;
  }

  evict-IsBounded :
      (c : LruCache V)
      → IsBounded c
      → 1 ≤ length c.items
      → IsBounded (evict_oldest c) × (length (evict_oldest c).items < length c.items)
  unfolding evict_oldest
  evict-IsBounded c h some_key =
      let fit = back-named c.keys h.named (omega (arith, some_key, h.synced.sizes)) in
      let last = back c.keys in
      let there = sym (h.synced.same last) ∙ has-back c.keys fit in
      elim (Bool-cases (last == "")) [
        | inl unnamed ↦ absurd (fit ((eq_iff last "").0 unnamed))
        | inr fine ↦
            rw (fine, evict_oldest)
              (
                drop-IsBounded last c _ h refl refl refl,
                ground (arith, there, length-erase last c.items h.synced.keyed),
              )
      ]

  -- A new key where there is room.
  push-IsBounded :
      (key : String) (v : CacheEntry V) (c : LruCache V)
      → IsBounded c
      → key ≢ ""
      → is_some (lookup key c.items) ≡ false
      → length c.items < c.max_entries
      → IsBounded (record c { items = insert key v c.items; keys = key ∷ c.keys })
  unfolding has
  push-IsBounded key v c h fit gone room = record {
    synced = push-IsSynced key v c.items c.keys gone h.synced;
    named = ground (arith, h.named, fit, eq_iff key "");
    bound = ground (arith, gone, room, length-insert key v c.items);
    positive = h.positive;
  }

  -- An eviction leaves the bound alone, and brings no key in.
  evict-max_entries :
      (key : String) (c : LruCache V)
      → ((evict_oldest c).max_entries ≡ c.max_entries)
        × (is_some (lookup key c.items) ≡ false
            → is_some (lookup key (evict_oldest c).items) ≡ false)
  unfolding evict_oldest
  evict-max_entries key c =
      (ground arith, λ gone. ground (arith, gone, lookup-erase (back c.keys) key c.items))

  pub set_item-IsBounded :
      (now : ℕ → ℕ) (key : String) (value : V) (c : LruCache V)
      → IsBounded c
      → key ≢ ""
      → IsBounded (set_item now key value c)
  unfolding set_item
  set_item-IsBounded now key value c h fit =
      let entry : CacheEntry V = record {
        value = value;
        inserted_at = now 0;
        accessed_at = now 1;
      } in
      elim (Bool-cases (is_some (lookup key c.items))) [
        | inl here ↦ rw (here, set_item) (touch-IsBounded key entry c _ h here refl refl refl)
        | inr gone ↦ elim (Bool-cases (leb c.max_entries (length c.items))) [
          | inr room ↦
              rw (gone, room, set_item)
                (push-IsBounded key entry c h fit gone (ground (arith, room)))
          | inl full ↦
              let some_key : 1 ≤ length c.items = ground (arith, full, h.positive) in
              let (v, fewer) = evict-IsBounded c h some_key in
              let (kept, absent) = evict-max_entries key c in
              rw (gone, full, set_item)
                (push-IsBounded key entry (evict_oldest c) v fit (absent gone)
                  (omega (arith, fewer, kept, h.bound)))
        ]
      ]

  pub get-IsBounded :
      (now now' : ℕ) (key : String) (c : LruCache V)
      → IsBounded c
      → IsBounded (get now now' key c).1
  unfolding get
  get-IsBounded now now' key c h = elim (Option-cases (lookup key c.items)) [
    | inl missing ↦
        rw (missing, get)
          (record { synced = h.synced; named = h.named; bound = h.bound; positive = h.positive })
    | inr (entry, found) ↦ elim (Bool-cases (ltb c.ttl (now - entry.inserted_at))) [
      | inl old ↦
          rw (found, get)
            (rw old (record {
              synced = h.synced;
              named = h.named;
              bound = h.bound;
              positive = h.positive;
            }))
      | inr young ↦
          rw (found, get) (rw young (touch-IsBounded key _ c _ h (rw found refl) refl refl refl))
    ]
  ]

  pub drop_expired-IsBounded :
      (now : ℕ) (entries : Map (CacheEntry V)) (c : LruCache V)
      → IsBounded c
      → IsBounded (drop_expired now entries c)
  unfolding drop_expired
  drop_expired-IsBounded now [] c h = h
  drop_expired-IsBounded now ((key, entry) ∷ entries) c h =
      elim (Bool-cases (ltb c.ttl (now - entry.inserted_at))) [
        | inl old ↦
            rw old (drop_expired-IsBounded now entries _ (drop-IsBounded key c _ h refl refl refl))
        | inr young ↦ rw young (drop_expired-IsBounded now entries c h)
      ]

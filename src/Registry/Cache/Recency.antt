-- ===== src/Registry/Cache/Recency.antt =====
-- Which entries the cache of engine/internal/integration/registry/cache.go keeps.
use proctssor.Prelude.{
  ℕ, ◌-◌, ◌≤◌, String, ◌==◌, eq_iff, ◌≡◌, refl, Bool, true, not, ◌&&◌, List, [], ◌∷◌, lookup, erase,
  lookup-insert, lookup-erase, none, some, is_some, if◌then◌else◌, length, leb, arith,
}
use proctssor.Registry.Cache.{
  CacheEntry, LruCache, remove, move_to_front, back, get, evict_oldest, set_item,
}
use proctssor.Registry.Cache.Order.{has, IsDistinct}
use proctssor.Registry.Cache.Synced.{IsSynced}

-- All keys but the one at the back, that used longest ago.
abbrev pub all_but_last : List String → List String
all_but_last [] = []
all_but_last (k ∷ []) = []
all_but_last (k ∷ j ∷ keys) = k ∷ all_but_last (j ∷ keys)

back-has : (k : String) (keys : List String) → has (back (k ∷ keys)) (k ∷ keys) ≡ true
unfolding has back
back-has k [] = ground (arith, eq_iff k k)
back-has k (j ∷ keys) = ground (arith, back-has j keys)

remove-back : (keys : List String) → IsDistinct keys → remove (back keys) keys ≡ all_but_last keys
unfolding remove back has
remove-back [] h = refl
remove-back (k ∷ []) h = ground (arith, eq_iff k k)
remove-back (k ∷ j ∷ keys) h =
    ground (arith, h, back-has j keys, eq_iff k (back (j ∷ keys)), remove-back (j ∷ keys) h.1)

module _ {V : Type 0} where
  -- Whether a `Set` evicts.
  abbrev pub evicts : LruCache V → String → Bool
  evicts c key =
      not (is_some (lookup key c.items))
      && leb c.max_entries (length c.items)
      && not (back c.keys == "")

  -- `Set` stores the value under its key and makes the key the most recent one. It evicts exactly
  -- when the key is new, the cache is full and the oldest key is not empty, and then the entry
  -- used longest ago and no other; every other entry stays as it was, and the other keys keep
  -- their order.
  pub set_item_lem :
      (now : ℕ → ℕ) (key : String) (value : V) (c : LruCache V) (j : String)
      → IsSynced c.items c.keys
      → let c' = set_item now key value c in
        let entry : CacheEntry V = record {
          value = value;
          inserted_at = now 0;
          accessed_at = now 1;
        } in
        (lookup j c'.items ≡ (
          if key == j
          then some entry
          else if evicts c key && back c.keys == j
          then none
          else lookup j c.items))
        × (c'.keys ≡ (
            if is_some (lookup key c.items)
            then key ∷ remove key c.keys
            else if evicts c key
            then key ∷ all_but_last c.keys
            else key ∷ c.keys))
  unfolding set_item evict_oldest move_to_front
  set_item_lem now key value c j h =
      let entry : CacheEntry V = record {
        value = value;
        inserted_at = now 0;
        accessed_at = now 1;
      } in
      (
        ground (
          arith,
          lookup-insert key j entry c.items,
          lookup-insert key j entry (erase (back c.keys) c.items),
          lookup-erase (back c.keys) j c.items,
        ),
        ground (arith, remove-back c.keys h.distinct),
      )

  -- A value that was just set is found for as long as it is not older than the lifetime, also in a
  -- full cache.
  pub get-set_item :
      (clock : ℕ → ℕ) (key : String) (value : V) (c : LruCache V) (now now' : ℕ)
      → now - clock 0 ≤ c.ttl
      → (get now now' key (set_item clock key value c)).0 ≡ some value
  unfolding get set_item evict_oldest
  get-set_item clock key value c now now' young =
      let entry : CacheEntry V = record {
        value = value;
        inserted_at = clock 0;
        accessed_at = clock 1;
      } in
      ground (
        arith,
        young,
        eq_iff key key,
        lookup-insert key key entry c.items,
        lookup-insert key key entry (erase (back c.keys) c.items),
      )

-- ===== src/Registry/Cache/Runs.antt =====
-- The cache through any calls.
use proctssor.Prelude.{
  ℕ, ◌≤◌, ℤ, String, ◌≢◌, refl, List, [], ◌∷◌, lookup, is_some, arith, Bool-cases, inl, inr, All,
}
use proctssor.Registry.Cache.{
  LruCache, new_lru_cache, get, set_item, delete, clear, cleanup_expired, size,
}
use proctssor.Registry.Cache.Order.{has}
use proctssor.Registry.Cache.Bound.{
  IsBounded, drop-IsBounded, set_item-IsBounded, get-IsBounded, drop_expired-IsBounded,
}
use proctssor.Registry.Cache.Synced.{IsSynced}

-- The methods, with what each call brings.
pub data CacheOp (V : Type 0) : Type 0 where
  look : ℕ → ℕ → String → CacheOp V
  put : (ℕ → ℕ) → String → V → CacheOp V
  discard : String → CacheOp V
  flush : CacheOp V
  sweep : ℕ → CacheOp V

empty-IsSynced : {V : Type 0} → IsSynced {V = V} [] []
unfolding has lookup
empty-IsSynced = record { distinct = tt; keyed = tt; same = λ k. refl; sizes = refl }

module _ {V : Type 0} where
  unfoldable pub apply : LruCache V → CacheOp V → LruCache V
  apply c (look now now' key) = (get now now' key c).1
  apply c (put now key value) = set_item now key value c
  apply c (discard key) = delete key c
  apply c flush = clear c
  apply c (sweep now) = cleanup_expired now c

  unfoldable pub run : LruCache V → List (CacheOp V) → LruCache V
  run c [] = c
  run c (op ∷ ops) = run (apply c op) ops

  -- A call that stores nothing under the empty key.
  abbrev pub IsNamedOp : CacheOp V → Type 0
  IsNamedOp (put now key value) = key ≢ ""
  IsNamedOp _ = Unit

  apply-IsBounded :
      (c : LruCache V) (op : CacheOp V) → IsNamedOp op → IsBounded c → IsBounded (apply c op)
  unfolding apply delete clear cleanup_expired has
  apply-IsBounded c (look now now' key) fit h = get-IsBounded now now' key c h
  apply-IsBounded c (put now key value) fit h = set_item-IsBounded now key value c h fit
  apply-IsBounded c (discard key) fit h = elim (Bool-cases (is_some (lookup key c.items))) [
    | inl here ↦ rw here (drop-IsBounded key c _ h refl refl refl)
    | inr gone ↦ rw gone h
  ]
  apply-IsBounded c flush fit h = record {
    synced = empty-IsSynced;
    named = refl;
    bound = omega arith;
    positive = h.positive;
  }
  apply-IsBounded c (sweep now) fit h = drop_expired-IsBounded now c.items c h

  run-IsBounded :
      (c : LruCache V) (ops : List (CacheOp V))
      → All IsNamedOp ops
      → IsBounded c
      → IsBounded (run c ops)
  unfolding run
  run-IsBounded c [] fit h = h
  run-IsBounded c (op ∷ ops) fit h =
      run-IsBounded (apply c op) ops fit.1 (apply-IsBounded c op fit.0 h)

new-IsBounded :
    {V : Type 0} (max_entries ttl : ℤ) → IsBounded (new_lru_cache {V = V} max_entries ttl)
unfolding new_lru_cache has
new-IsBounded max_entries ttl = record {
  synced = empty-IsSynced;
  named = refl;
  bound = omega arith;
  positive = ground arith;
}

-- A new cache, for any bound and lifetime asked for, stays in order through any calls that store
-- nothing under the empty key: the table and the key list hold the same keys, each once, and the
-- number of entries never exceeds the bound.
pub cache_bounded :
    {V : Type 0} (max_entries ttl : ℤ) (ops : List (CacheOp V))
    → All IsNamedOp ops
    → let c = run (new_lru_cache max_entries ttl) ops in
      IsSynced c.items c.keys × (size c ≤ c.max_entries)
unfolding size
cache_bounded max_entries ttl ops fit =
    let h = run-IsBounded (new_lru_cache max_entries ttl) ops fit (new-IsBounded max_entries ttl) in
    (h.synced, h.bound)

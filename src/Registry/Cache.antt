-- ===== src/Registry/Cache.antt =====
-- `LRUCache` of engine/internal/integration/registry/cache.go. The doubly linked list is the list
-- of its keys from the front; its own length counter is never read. Each method runs under the
-- lock and is one step; the background loop is the step `cleanup_expired`. Times are nanoseconds.
pub mod Order
pub mod Table
pub mod Synced
pub mod Bound
pub mod Runs
pub mod Recency
use proctssor.Prelude.{
  ℕ, zero, suc, ◌+◌, ◌-◌, ◌%◌, ◌^◌, ℤ, pos, negsuc, String, ◌==◌, Bool, true, false, not, ◌&&◌,
  List, [], ◌∷◌, Map, lookup, insert, erase, Option, none, some, if◌then◌else◌, is_some, length,
  leb, ltb,
}

pub record CacheEntry (V : Type 0) : Type 0 where
  pub value : V
  pub inserted_at : ℕ
  pub accessed_at : ℕ

-- The counters are 64-bit integers.
pub record CacheStats : Type 0 where
  pub hits : ℕ
  pub misses : ℕ
  pub evicts : ℕ

pub record LruCache (V : Type 0) : Type 0 where
  pub items : Map (CacheEntry V)
  pub keys : List String
  pub max_entries : ℕ
  pub ttl : ℕ
  pub stats : CacheStats

abbrev count : ℕ → ℕ
count n = (n + 1) % 2 ^ 64

-- `Remove` of the list: the first node with the key.
unfoldable pub remove : String → List String → List String
remove key [] = []
remove key (k ∷ keys) = let rest = remove key keys in if k == key then keys else k ∷ rest

-- `MoveToFront`, which pushes the key also where it was not found.
unfoldable pub move_to_front : String → List String → List String
move_to_front key keys = key ∷ remove key keys

-- `Back`: the empty text where the list is empty.
unfoldable pub back : List String → String
back [] = ""
back (k ∷ keys) = elim keys [ [] ↦ k | _ ∷ _ ↦ back keys ]

module _ {V : Type 0} where
  -- `NewLRUCache`: a bound or a lifetime that is not positive is replaced by the default.
  unfoldable pub new_lru_cache : ℤ → ℤ → LruCache V
  new_lru_cache max_entries ttl = record {
    items = [];
    keys = [];
    max_entries = elim max_entries [ pos (suc n) ↦ suc n | _ ↦ 1000 ];
    ttl = elim ttl [ pos (suc n) ↦ suc n | _ ↦ 300000000000 ];
    stats = record { hits = 0; misses = 0; evicts = 0 };
  }

  abbrev miss : LruCache V → LruCache V
  miss c = record c { stats = record c.stats { misses = count c.stats.misses } }

  -- `Get`: an entry that is too old is missed, and stays.
  unfoldable pub get : ℕ → ℕ → String → LruCache V → Option V × LruCache V
  get now now' key c = elim (lookup key c.items) [
    | none ↦ (none, miss c)
    | some entry ↦
        let hit = record c {
          items = insert key (record entry { accessed_at = now' }) c.items;
          keys = move_to_front key c.keys;
          stats = record c.stats { hits = count c.stats.hits };
        } in
        if ltb c.ttl (now - entry.inserted_at) then (none, miss c) else (some entry.value, hit)
  ]

  -- `evictOldest`: nothing happens for the empty key.
  unfoldable pub evict_oldest : LruCache V → LruCache V
  evict_oldest c =
      let key = back c.keys in
      if key == "" then c else record c {
        items = erase key c.items;
        keys = remove key c.keys;
        stats = record c.stats { evicts = count c.stats.evicts };
      }

  unfoldable pub set_item : (ℕ → ℕ) → String → V → LruCache V → LruCache V
  set_item now key value c =
      let entry : CacheEntry V = record {
        value = value;
        inserted_at = now 0;
        accessed_at = now 1;
      } in
      let room = if leb c.max_entries (length c.items) then evict_oldest c else c in
      if is_some (lookup key c.items)
      then record c { items = insert key entry c.items; keys = move_to_front key c.keys }
      else record room { items = insert key entry room.items; keys = key ∷ room.keys }

  unfoldable pub delete : String → LruCache V → LruCache V
  delete key c =
      if is_some (lookup key c.items)
      then record c { items = erase key c.items; keys = remove key c.keys }
      else c

  unfoldable pub clear : LruCache V → LruCache V
  clear c = record c { items = []; keys = [] }

  unfoldable pub size : LruCache V → ℕ
  size c = length c.items

  -- The loop of `cleanupExpired`, over the entries as they were.
  unfoldable pub drop_expired : ℕ → Map (CacheEntry V) → LruCache V → LruCache V
  drop_expired now [] c = c
  drop_expired now ((key, entry) ∷ entries) c = drop_expired now entries (
      if ltb c.ttl (now - entry.inserted_at)
      then record c { items = erase key c.items; keys = remove key c.keys }
      else c)

  unfoldable pub cleanup_expired : ℕ → LruCache V → LruCache V
  cleanup_expired now c = drop_expired now c.items c

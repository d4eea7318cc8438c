-- ===== src/Tests/Registries.antt =====
-- The theorems on the registry's cache, tried on a cache with room for two entries.
use proctssor.Prelude.{
  ℕ, ◌+◌, eq_iff, ◌≤◌, pos, ◌≡◌, refl, List, [], ◌∷◌, none, some, All, ok, lookup, arith,
}
use proctssor.Registry.Cache.{CacheEntry, LruCache, new_lru_cache, set_item, size, back}
use proctssor.Registry.Cache.Order.{has}
use proctssor.Registry.Cache.Synced.{IsSynced}
use proctssor.Registry.Cache.Runs.{CacheOp, look, put, discard, IsNamedOp, run, cache_bounded}
use proctssor.Registry.Cache.Recency.{set_item_lem}
use proctssor.Registry.Cached.{
  Service, Stored, services, RegistryRepository, registered, discover_key, register, invalidate,
}

abbrev after : ℕ → ℕ → ℕ
after t k = t + k

abbrev calls : List (CacheOp ℕ)
calls =
    put (after 10) "a" 1
    ∷ put (after 20) "b" 2
    ∷ look 30 31 "a"
    ∷ put (after 40) "c" 3
    ∷ discard "b"
    ∷ []

named : All IsNamedOp calls
named = (λ e. cc, (λ e. cc, (tt, (λ e. cc, (tt, tt)))))

cache_bounded_example :
    let c = run (new_lru_cache (pos 2) (pos 100)) calls in
    IsSynced c.items c.keys × (size c ≤ c.max_entries)
cache_bounded_example = cache_bounded (pos 2) (pos 100) calls named

-- Two entries, of which `b` was used longer ago.
abbrev full : LruCache ℕ
full = record {
  items =
      ("a", record { value = 1; inserted_at = 10; accessed_at = 31 })
      ∷ ("b", record { value = 2; inserted_at = 20; accessed_at = 21 })
      ∷ [];
  keys = "a" ∷ "b" ∷ [];
  max_entries = 2;
  ttl = 100;
  stats = record { hits = 1; misses = 0; evicts = 0 };
}

full-IsSynced : IsSynced full.items full.keys
unfolding has lookup
full-IsSynced = record {
  distinct = (refl, (refl, tt));
  keyed = (refl, (refl, tt));
  same = λ k. ground (arith, eq_iff "a" k, eq_iff "b" k);
  sizes = refl;
}

set_item_lem_example :
    let c = set_item (after 40) "c" 3 full in
    (lookup "b" c.items ≡ none) × (c.keys ≡ "c" ∷ "a" ∷ [])
unfolding lookup back
set_item_lem_example = set_item_lem (after 40) "c" 3 full "b" full-IsSynced

abbrev service_a : Service
service_a = record {
  id = "1";
  name = "a";
  type = "worker";
  endpoint = "";
  metadata = [];
  status = "active";
  heartbeat_at = 5;
  registered_at = 5;
}

-- A repository that knows of `service_a` once it is registered.
abbrev repository : RegistryRepository
repository = record {
  register = λ calls service. none;
  heartbeat = λ calls id. none;
  discover = λ calls type. elim calls [ [] ↦ ok [] | _ ↦ ok (service_a ∷ []) ];
  discover_by_name = λ calls name. ok service_a;
  list_all = λ calls. ok (service_a ∷ []);
  unregister = λ calls id. none;
}

abbrev empty_list : CacheEntry Stored
empty_list = record { value = services []; inserted_at = 10; accessed_at = 10 }

abbrev warm : LruCache Stored
warm = record {
  items = (discover_key "worker", empty_list) ∷ [];
  keys = discover_key "worker" ∷ [];
  max_entries = 2;
  ttl = 100;
  stats = record { hits = 0; misses = 1; evicts = 0 };
}

warm_held : lookup (discover_key "worker") warm.items ≡ some empty_list
unfolding lookup
warm_held = refl

service_taken :
    register repository service_a (warm, [])
    ≡ (none, (invalidate "a" warm, registered service_a ∷ []))
unfolding register
service_taken = refl

-- ===== src/Registry/Cached/Stale.antt =====
-- Lists that outlive a registration: `Register` and `Discover` of
-- engine/internal/integration/registry/cache.go.
use Prim.Native.Char.{Char, code}
use Prim.Native.String.{◌++◌ as text_append}
use text.Mathlib.TextLemmas.{cons-append}
use proctssor.Prelude.{
  ℕ, ◌-◌, ◌≤◌, String, eq_iff, ◌≡◌, ◌≢◌, refl, ◌∙◌, ap, List, lookup, lookup-erase, none, some,
  Result, ok, arith,
}
use proctssor.Registry.Cache.{CacheEntry, LruCache, get, delete}
use proctssor.Registry.Cached.{
  Service, Stored, services, Calls, RegistryRepository, RepositoryCall, discovered, discover_key,
  name_key, list_through, discover, invalidate, register,
}

-- The first character of a key tells its kind.
first : String → ℕ
first String.[] = 0
first (String.◌∷◌ c s) = code c

first-append : (c : Char) (s t : String) → first (text_append (String.◌∷◌ c s) t) ≡ code c
unfolding first
first-append c s t = ap first (cons-append c s t)

name_key-first : (name : String) → first (name_key name) ≡ 110
name_key-first name = first-append "n" "ame:" name

discover_key-first : (type : String) → first (discover_key type) ≡ 100
discover_key-first type = first-append "d" "iscover:" type

name-discover_ne : (name type : String) → name_key name ≢ discover_key type
name-discover_ne name type e =
    omega (arith, name_key-first name, discover_key-first type, ap first e)

list-discover_ne : (type : String) → "list:all" ≢ discover_key type
unfolding first
list-discover_ne type e =
    let at_l : first "list:all" ≡ 108 = refl in
    omega (arith, at_l, discover_key-first type, ap first e)

lookup-delete_ne :
    (key j : String) (c : LruCache Stored)
    → key ≢ j
    → lookup j (delete key c).items ≡ lookup j c.items
unfolding delete
lookup-delete_ne key j c h = ground (arith, h, eq_iff key j, lookup-erase key j c.items)

delete-ttl : (key : String) (c : LruCache Stored) → (delete key c).ttl ≡ c.ttl
unfolding delete
delete-ttl key c = ground arith

invalidate-discover :
    (name type : String) (c : LruCache Stored)
    → (lookup (discover_key type) (invalidate name c).items ≡ lookup (discover_key type) c.items)
      × ((invalidate name c).ttl ≡ c.ttl)
unfolding invalidate
invalidate-discover name type c =
    let once = delete (name_key name) c in
    (
      lookup-delete_ne "list:all" (discover_key type) once (list-discover_ne type)
          ∙ lookup-delete_ne (name_key name) (discover_key type) c (name-discover_ne name type),
      delete-ttl "list:all" once ∙ delete-ttl (name_key name) c,
    )

served :
    (clock : ℕ → ℕ) (key : String) (answer : Result String (List Service)) (call : RepositoryCall)
    (c : LruCache Stored) (calls : Calls) (entry : CacheEntry Stored) (all : List Service)
    → lookup key c.items ≡ some entry
    → entry.value ≡ services all
    → clock 0 - entry.inserted_at ≤ c.ttl
    → let (found, (_, calls')) = list_through clock key answer call (c, calls) in
      (found ≡ ok all) × (calls' ≡ calls)
unfolding list_through get
served clock key answer call c calls entry all held value young = ground (arith, held, value, young)

register-invalidates :
    (r : RegistryRepository) (service : Service) (c c' : LruCache Stored) (calls calls' : Calls)
    → register r service (c, calls) ≡ (none, (c', calls'))
    → c' ≡ invalidate service.name c
unfolding register
register-invalidates r service c c' calls calls' taken = ground (arith, taken)

-- A list of services that was cached for a type is served for its whole lifetime, without a call
-- of the repository, also after a service was registered: `Register` removes the entry of the
-- name and that of the list of all services, and no entry of a type.
pub register_stale :
    (r : RegistryRepository) (service : Service) (clock : ℕ → ℕ) (type : String)
    (c c' : LruCache Stored) (calls calls' : Calls) (entry : CacheEntry Stored) (all : List Service)
    → lookup (discover_key type) c.items ≡ some entry
    → entry.value ≡ services all
    → register r service (c, calls) ≡ (none, (c', calls'))
    → clock 0 - entry.inserted_at ≤ c.ttl
    → let (answer, (_, calls'')) = discover r clock type (c', calls') in
      (answer ≡ ok all) × (calls'' ≡ calls')
unfolding discover
register_stale r service clock type c c' calls calls' entry all held value taken young =
    let (kept, same_ttl) = invalidate-discover service.name type c in
    let invalidated = register-invalidates r service c c' calls calls' taken in
    let same_items = ap (λ (d : LruCache Stored). lookup (discover_key type) d.items) invalidated in
    let ttl' = ap (λ (d : LruCache Stored). d.ttl) invalidated ∙ same_ttl in
    served clock (discover_key type) (r.discover calls' type) (discovered type) c' calls' entry all
      (same_items ∙ kept ∙ held) value (omega (arith, ttl', young))

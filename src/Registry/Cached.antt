-- ===== src/Registry/Cached.antt =====
-- `CachedRegistryRepository` of engine/internal/integration/registry/cache.go. The repository that
-- it wraps is an interface value, which answers in view of all calls made before. The context of
-- a call is not read.
pub mod Stale
use Prim.Native.String.{◌++◌ as text_append}
use proctssor.Prelude.{
  ℕ, ◌+◌, String, List, [], ◌∷◌, ◌++◌, Map, Option, none, some, Result, ok, err,
}
use proctssor.Registry.Cache.{LruCache, get, set_item, delete, clear}

pub record Service : Type 0 where
  pub id : String
  pub name : String
  pub type : String
  pub endpoint : String
  pub metadata : Map String
  pub status : String
  pub heartbeat_at : ℕ
  pub registered_at : ℕ

-- What the cache holds: a list of services, or one service.
pub data Stored : Type 0 where
  services : List Service → Stored
  single : Service → Stored

pub data RepositoryCall : Type 0 where
  registered : Service → RepositoryCall
  beaten unregistered discovered found_by_name : String → RepositoryCall
  listed : RepositoryCall

abbrev pub Calls : Type 0
Calls = List RepositoryCall

-- `RegistryRepository`. `some message` is an error.
pub record RegistryRepository : Type 0 where
  pub register : Calls → Service → Option String
  pub heartbeat : Calls → String → Option String
  pub discover : Calls → String → Result String (List Service)
  pub discover_by_name : Calls → String → Result String Service
  pub list_all : Calls → Result String (List Service)
  pub unregister : Calls → String → Option String

abbrev pub CachedState : Type 0
CachedState = LruCache Stored × Calls

abbrev pub discover_key : String → String
discover_key type = text_append "discover:" type

abbrev pub name_key : String → String
name_key name = text_append "name:" name

-- Where the cache has a list of services under the key, that list; else the answer of the
-- repository, which is stored unless it is an error. `clock` has the times of the method's calls.
unfoldable pub list_through :
    (ℕ → ℕ)
    → String
    → Result String (List Service)
    → RepositoryCall
    → CachedState
    → Result String (List Service) × CachedState
list_through clock key answer call (c, calls) =
    let (found, c') = get (clock 0) (clock 1) key c in
    let asked : Result String (List Service) × CachedState = elim answer [
      | err message ↦ (err message, (c', calls ++ call ∷ []))
      | ok all ↦ (ok all, (set_item (λ k. clock (2 + k)) key (services all) c', calls ++ call ∷ []))
    ] in
    elim found [ some (services all) ↦ (ok all, (c', calls)) | _ ↦ asked ]

-- `Discover` and `ListAll`.
unfoldable pub discover :
    RegistryRepository → (ℕ → ℕ) → String → CachedState → Result String (List Service) × CachedState
discover r clock type (c, calls) =
    list_through clock (discover_key type) (r.discover calls type) (discovered type) (c, calls)

unfoldable pub list_all :
    RegistryRepository → (ℕ → ℕ) → CachedState → Result String (List Service) × CachedState
list_all r clock (c, calls) = list_through clock "list:all" (r.list_all calls) listed (c, calls)

-- `DiscoverByName`.
unfoldable pub discover_by_name :
    RegistryRepository → (ℕ → ℕ) → String → CachedState → Result String Service × CachedState
discover_by_name r clock name (c, calls) =
    let (found, c') = get (clock 0) (clock 1) (name_key name) c in
    let calls' = calls ++ found_by_name name ∷ [] in
    let asked : Result String Service × CachedState = elim (r.discover_by_name calls name) [
      | err message ↦ (err message, (c', calls'))
      | ok service ↦
          (ok service, (set_item (λ k. clock (2 + k)) (name_key name) (single service) c', calls'))
    ] in
    elim found [ some (single service) ↦ (ok service, (c', calls)) | _ ↦ asked ]

-- `invalidateCache`.
unfoldable pub invalidate : String → LruCache Stored → LruCache Stored
invalidate name c = delete "list:all" (delete (name_key name) c)

unfoldable pub register : RegistryRepository → Service → CachedState → Option String × CachedState
register r service (c, calls) =
    let calls' = calls ++ registered service ∷ [] in
    elim (r.register calls service) [
      | some message ↦ (some message, (c, calls'))
      | none ↦ (none, (invalidate service.name c, calls'))
    ]

unfoldable pub heartbeat : RegistryRepository → String → CachedState → Option String × CachedState
heartbeat r id (c, calls) = (r.heartbeat calls id, (c, calls ++ beaten id ∷ []))

unfoldable pub unregister : RegistryRepository → String → CachedState → Option String × CachedState
unregister r id (c, calls) =
    let calls' = calls ++ unregistered id ∷ [] in
    elim (r.unregister calls id) [
      | some message ↦ (some message, (c, calls'))
      | none ↦ (none, (clear c, calls'))
    ]

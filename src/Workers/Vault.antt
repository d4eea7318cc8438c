-- ===== src/Workers/Vault.antt =====
-- The vault service: vault-service/internal/vault/storage.go and vault-service/internal/service/handler.go.
-- Each method of MemoryStorage holds the lock to its end, so it is one step. Times are parameters.
pub mod Refinement
pub mod Answers
use Prim.Native.String.{◌++◌ as text_append}
use package.text.Mathlib.Text.{starts_with}
use proctssor.Prelude.{
  ℕ, String, ◌==◌, Bool, true, false, ◌||◌, List, [], ◌∷◌, Map, lookup, insert, erase, Option, none,
  some, if◌then◌else◌, Result, ok, err, length, is_some,
}
use proctssor.Workers.{
  WorkflowCommand, ServiceResponse, new_response, refuse, succeed, text_input, object_input,
  texts_of,
}

pub record Secret : Type 0 where
  pub key : String
  pub value : String
  pub metadata : Map String
  pub created_at : ℕ
  pub updated_at : ℕ

abbrev pub MemoryStorage : Type 0
MemoryStorage = Map Secret

abbrev pub not_found : String → String
not_found key = text_append "secret not found: " key

unfoldable pub get : MemoryStorage → String → Result String Secret
get s key = elim (lookup key s) [ none ↦ err (not_found key) | some secret ↦ ok secret ]

-- `Set` changes the secret behind the pointer, where there is one. It returns no error.
unfoldable pub set : MemoryStorage → ℕ → String → String → Map String → MemoryStorage
set s now key value metadata = elim (lookup key s) [
  | some existing ↦
      insert key (record existing { value = value; metadata = metadata; updated_at = now }) s
  | none ↦
      insert key
        (record {
          key = key;
          value = value;
          metadata = metadata;
          created_at = now;
          updated_at = now;
        })
        s
]

unfoldable pub delete : MemoryStorage → String → Option String × MemoryStorage
delete s key = elim (lookup key s) [
  | none ↦ (some (not_found key), s)
  | some secret ↦ (none, erase key s)
]

-- `List`: the source ranges over the map in no fixed order. It returns no error.
unfoldable pub list : MemoryStorage → String → List Secret
list [] prefix = []
list (entry ∷ s) prefix =
    if prefix == "" || starts_with entry.0 prefix then entry.1 ∷ list s prefix else list s prefix

pub record Listed : Type 0 where
  pub key : String
  pub metadata : Map String
  pub created_at : ℕ
  pub updated_at : ℕ

pub data Output : Type 0 where
  text : String → Output
  flag : Bool → Output
  number : ℕ → Output
  texts : Map String → Output
  secrets : List Listed → Output

-- `getFullKey`.
unfoldable pub get_full_key : String → String → String
get_full_key secret_prefix key =
    if secret_prefix == "" then key else text_append secret_prefix (text_append "/" key)

abbrev pub Response : Type 0
Response = ServiceResponse Output

abbrev pub required : String → String
required name = text_append name " is required"

unfoldable pub handle_get_secret :
    String → MemoryStorage → WorkflowCommand → Response → Response × MemoryStorage
handle_get_secret prefix s cmd resp = elim (text_input cmd "key") [
  | none ↦ (refuse resp "invalid_input" (required "key"), s)
  | some key ↦ elim (get s (get_full_key prefix key)) [
    | err message ↦ (refuse resp "secret_not_found" message, s)
    | ok secret ↦ (
      succeed resp (
          ("key", text secret.key)
          ∷ ("value", text secret.value)
          ∷ ("metadata", texts secret.metadata)
          ∷ ("created_at", number secret.created_at)
          ∷ ("updated_at", number secret.updated_at)
          ∷ []),
      s,
    )
  ]
]

-- `metadata`, from the texts of the object, if there is one.
abbrev pub metadata_of : WorkflowCommand → Map String
metadata_of cmd = elim (object_input cmd "metadata") [ none ↦ [] | some fs ↦ texts_of fs ]

unfoldable pub handle_set_secret :
    String → (ℕ → ℕ) → MemoryStorage → WorkflowCommand → Response → Response × MemoryStorage
handle_set_secret prefix now s cmd resp = elim (text_input cmd "key") [
  | none ↦ (refuse resp "invalid_input" (required "key"), s)
  | some key ↦ elim (text_input cmd "value") [
    | none ↦ (refuse resp "invalid_input" (required "value"), s)
    | some value ↦ (
      succeed resp
          (("key", text key) ∷ ("secret_set", flag true) ∷ ("timestamp", number (now 2)) ∷ []),
      set s (now 1) (get_full_key prefix key) value (metadata_of cmd),
    )
  ]
]

unfoldable pub handle_delete_secret :
    String → MemoryStorage → WorkflowCommand → Response → Response × MemoryStorage
handle_delete_secret prefix s cmd resp = elim (text_input cmd "key") [
  | none ↦ (refuse resp "invalid_input" (required "key"), s)
  | some key ↦
      let (fault, s') = delete s (get_full_key prefix key) in
      elim fault [
        | some message ↦ (refuse resp "deletion_error" message, s')
        | none ↦ (succeed resp (("key", text key) ∷ ("secret_deleted", flag true) ∷ []), s')
      ]
]

abbrev pub listed : List Secret → List Listed
listed [] = []
listed (secret ∷ l) =
    record {
      key = secret.key;
      metadata = secret.metadata;
      created_at = secret.created_at;
      updated_at = secret.updated_at;
    }
    ∷ listed l

unfoldable pub handle_list_secrets :
    String → MemoryStorage → WorkflowCommand → Response → Response × MemoryStorage
handle_list_secrets prefix s cmd resp =
    let wanted : String = elim (text_input cmd "prefix") [
      | none ↦ prefix
      | some p ↦ get_full_key prefix p
    ] in
    let found = list s wanted in
    (succeed resp (("secrets", secrets (listed found)) ∷ ("count", number (length found)) ∷ []), s)

unfoldable pub handle_health_check : ℕ → Response → Response
handle_health_check now resp = succeed resp (
    ("status", text "healthy")
    ∷ ("service_name", text "vault-service")
    ∷ ("timestamp", number now)
    ∷ [])

unfoldable pub handle_unknown_operation : WorkflowCommand → Response → Response
handle_unknown_operation cmd resp =
    refuse resp "unknown_operation" (text_append "Unknown operation: " cmd.operation)

-- The cases of the `switch`.
pub data Operation : Type 0 where
  get_secret set_secret delete_secret list_secrets health_check unknown : Operation

unfoldable pub operation_of : String → Operation
operation_of name =
    if name == "get_secret"
    then get_secret
    else if name == "set_secret"
    then set_secret
    else if name == "delete_secret"
    then delete_secret
    else if name == "list_secrets"
    then list_secrets
    else if name == "health_check"
    then health_check
    else unknown

unfoldable pub dispatch :
    Operation
    → String
    → (ℕ → ℕ)
    → MemoryStorage
    → WorkflowCommand
    → Response
    → Response × MemoryStorage
dispatch get_secret prefix now s cmd resp = handle_get_secret prefix s cmd resp
dispatch set_secret prefix now s cmd resp = handle_set_secret prefix now s cmd resp
dispatch delete_secret prefix now s cmd resp = handle_delete_secret prefix s cmd resp
dispatch list_secrets prefix now s cmd resp = handle_list_secrets prefix s cmd resp
dispatch health_check prefix now s cmd resp = (handle_health_check (now 1) resp, s)
dispatch unknown prefix now s cmd resp = (handle_unknown_operation cmd resp, s)

-- `HandleCommand`; it returns no error. `now 0` is its own reading of the clock.
unfoldable pub handle_command :
    String → (ℕ → ℕ) → MemoryStorage → WorkflowCommand → Response × MemoryStorage
unfolding dispatch
handle_command prefix now s cmd =
    dispatch (operation_of cmd.operation) prefix now s cmd (new_response (now 0) cmd)

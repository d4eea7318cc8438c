-- ===== src/Workers/Vault/Refinement.antt =====
-- The vault service as a map from keys to values with metadata:
-- vault-service/internal/vault/storage.go and vault-service/internal/service/handler.go.
use proctssor.Prelude.{
  ℕ, String, ◌==◌, eq_iff, ◌≡◌, refl, ◌∙◌, ap, List, [], ◌∷◌, Map, lookup, lookup-insert,
  lookup-erase, Option, none, some, if◌then◌else◌, arith, Option-cases, inl, inr,
}
use mathlib.Core.Path.{fun_ext}
use package.text.Mathlib.TextPositions.{eq_refl}
use proctssor.Workers.{WorkflowCommand, ResponseStatus, new_response, text_input}
use proctssor.Workers.Vault.{
  MemoryStorage, Output, Response, get, set, delete, get_full_key, metadata_of, handle_get_secret,
  handle_set_secret, handle_delete_secret, handle_list_secrets, handle_command, Operation,
  get_secret, set_secret, delete_secret, list_secrets, health_check, unknown, operation_of,
  dispatch,
}

-- What a key leads to, whenever it was stored.
abbrev pub View : Type 0
View = String → Option (String × Map String)

abbrev pub view : MemoryStorage → View
view s key = elim (lookup key s) [
  | none ↦ none
  | some secret ↦ some (secret.value, secret.metadata)
]

view-set :
    (s : MemoryStorage) (now : ℕ) (key value : String) (metadata : Map String) (j : String)
    → view (set s now key value metadata) j
      ≡ (if key == j then some (value, metadata) else view s j)
unfolding set
view-set s now key value metadata j = elim (Option-cases (lookup key s)) [
  | inl fresh ↦
      rw (set, fresh)
        (ground (
          arith,
          lookup-insert key j
              (record {
                key = key;
                value = value;
                metadata = metadata;
                created_at = now;
                updated_at = now;
              })
              s,
        ))
  | inr (old, there) ↦
      rw (set, there)
        (ground (
          arith,
          lookup-insert key j (record old { value = value; metadata = metadata; updated_at = now })
              s,
        ))
]

view-delete :
    (s : MemoryStorage) (key j : String)
    → view (delete s key).1 j ≡ (if key == j then none else view s j)
unfolding delete
view-delete s key j = elim (Option-cases (lookup key s)) [
  | inl absent ↦ rw (delete, absent) (ground (arith, absent, eq_iff key j))
  | inr (old, there) ↦ rw (delete, there) (ground (arith, lookup-erase key j s))
]

-- What a command means for such a map: only a complete set_secret and a delete_secret change it, and
-- only at their key, under the prefix.
abbrev pub meaning : Operation → String → WorkflowCommand → View → View
meaning op prefix cmd v j = elim op [
  | set_secret ↦ elim (text_input cmd "key") [
    | none ↦ v j
    | some key ↦ elim (text_input cmd "value") [
      | none ↦ v j
      | some value ↦ if get_full_key prefix key == j then some (value, metadata_of cmd) else v j
    ]
  ]
  | delete_secret ↦ elim (text_input cmd "key") [
    | none ↦ v j
    | some key ↦ if get_full_key prefix key == j then none else v j
  ]
  | _ ↦ v j
]

set_secret-view :
    (prefix : String) (now : ℕ → ℕ) (s : MemoryStorage) (cmd : WorkflowCommand) (resp : Response)
    (j : String)
    → view (handle_set_secret prefix now s cmd resp).1 j ≡ meaning set_secret prefix cmd (view s) j
unfolding handle_set_secret
set_secret-view prefix now s cmd resp j = elim (Option-cases (text_input cmd "key")) [
  | inl no_key ↦ rw (handle_set_secret, meaning, no_key) refl
  | inr (key, keyed) ↦ elim (Option-cases (text_input cmd "value")) [
    | inl no_value ↦ rw (handle_set_secret, meaning, keyed, no_value) refl
    | inr (value, valued) ↦
        rw (handle_set_secret, meaning, keyed, valued)
          (view-set s (now 1) (get_full_key prefix key) value (metadata_of cmd) j)
  ]
]

delete_secret-view :
    (prefix : String) (s : MemoryStorage) (cmd : WorkflowCommand) (resp : Response) (j : String)
    → view (handle_delete_secret prefix s cmd resp).1 j
      ≡ meaning delete_secret prefix cmd (view s) j
unfolding handle_delete_secret
delete_secret-view prefix s cmd resp j = elim (Option-cases (text_input cmd "key")) [
  | inl no_key ↦ rw (handle_delete_secret, meaning, no_key) refl
  | inr (key, keyed) ↦
      rw (handle_delete_secret, meaning, keyed)
        (ground (arith, view-delete s (get_full_key prefix key) j))
]

dispatch-view :
    (op : Operation) (prefix : String) (now : ℕ → ℕ) (s : MemoryStorage) (cmd : WorkflowCommand)
    (resp : Response) (j : String)
    → view (dispatch op prefix now s cmd resp).1 j ≡ meaning op prefix cmd (view s) j
unfolding dispatch handle_get_secret handle_list_secrets
dispatch-view get_secret prefix now s cmd resp j = ground arith
dispatch-view set_secret prefix now s cmd resp j = set_secret-view prefix now s cmd resp j
dispatch-view delete_secret prefix now s cmd resp j = delete_secret-view prefix s cmd resp j
dispatch-view list_secrets prefix now s cmd resp j = refl
dispatch-view health_check prefix now s cmd resp j = refl
dispatch-view unknown prefix now s cmd resp j = refl

-- Commands one after the other, each with its own readings of the clock.
unfoldable pub serve : String → List ((ℕ → ℕ) × WorkflowCommand) → MemoryStorage → MemoryStorage
serve prefix [] s = s
serve prefix ((now, cmd) ∷ cmds) s = serve prefix cmds (handle_command prefix now s cmd).1

abbrev pub meanings : String → List ((ℕ → ℕ) × WorkflowCommand) → View → View
meanings prefix [] v = v
meanings prefix ((now, cmd) ∷ cmds) v =
    meanings prefix cmds (meaning (operation_of cmd.operation) prefix cmd v)

-- The service refines a map from keys to values with metadata: after any commands, the store shows
-- what the commands mean one after the other, whatever the clock says.
pub serve_refines :
    (prefix : String) (cmds : List ((ℕ → ℕ) × WorkflowCommand)) (s : MemoryStorage)
    → view (serve prefix cmds s) ≡ meanings prefix cmds (view s)
unfolding serve handle_command
serve_refines prefix [] s = refl
serve_refines prefix ((now, cmd) ∷ cmds) s =
    serve_refines prefix cmds (handle_command prefix now s cmd).1
    ∙ ap (meanings prefix cmds) (
        fun_ext λ j.
          dispatch-view (operation_of cmd.operation) prefix now s cmd (new_response (now 0) cmd) j)

-- The response to a get_secret shows what the store holds.
get_secret-shows :
    (prefix : String) (s : MemoryStorage) (cmd : WorkflowCommand) (resp : Response)
    (key value : String) (metadata : Map String)
    → text_input cmd "key" ≡ some key
    → view s (get_full_key prefix key) ≡ some (value, metadata)
    → let answer = (handle_get_secret prefix s cmd resp).0 in
      (answer.status ≡ ResponseStatus.success)
      × (lookup "value" answer.output_variables ≡ some (Output.text value))
      × (lookup "metadata" answer.output_variables ≡ some (Output.texts metadata))
unfolding handle_get_secret get lookup
get_secret-shows prefix s cmd resp key value metadata keyed held =
    elim (Option-cases (lookup (get_full_key prefix key) s)) [
      | inl absent ↦ absurd (ground (arith, absent, held))
      | inr (secret, there) ↦
          rw (handle_get_secret, keyed, get, there) (ground (arith, there, held))
    ]

operation_of-set : (name : String) → name ≡ "set_secret" → operation_of name ≡ set_secret
unfolding operation_of
operation_of-set name h = ap operation_of h

operation_of-get : (name : String) → name ≡ "get_secret" → operation_of name ≡ get_secret
unfolding operation_of
operation_of-get name h = ap operation_of h

-- A secret that set_secret stored is what the next get_secret of the same key answers, with its
-- metadata, whatever was stored before, with a prefix or without one.
pub get_after_set :
    (prefix : String) (now now' : ℕ → ℕ) (s : MemoryStorage) (store fetch : WorkflowCommand)
    (key value : String)
    → store.operation ≡ "set_secret"
    → text_input store "key" ≡ some key
    → text_input store "value" ≡ some value
    → fetch.operation ≡ "get_secret"
    → text_input fetch "key" ≡ some key
    → let s' = (handle_command prefix now s store).1 in
      let answer = (handle_command prefix now' s' fetch).0 in
      (answer.status ≡ ResponseStatus.success)
      × (lookup "value" answer.output_variables ≡ some (Output.text value))
      × (lookup "metadata" answer.output_variables ≡ some (Output.texts (metadata_of store)))
unfolding handle_command
get_after_set prefix now now' s store fetch key value is_set keyed valued is_get keyed' =
    let s' = (dispatch set_secret prefix now s store (new_response (now 0) store)).1 in
    let held : view s' (get_full_key prefix key) ≡ some (value, metadata_of store) =
      dispatch-view set_secret prefix now s store (new_response (now 0) store)
        (get_full_key prefix key)
      ∙ rw (meaning, keyed, valued, eq_refl (get_full_key prefix key)) refl in
    rw (operation_of-set store.operation is_set, operation_of-get fetch.operation is_get)
      (get_secret-shows prefix s' fetch (new_response (now' 0) fetch) key value (metadata_of store)
        keyed' held)

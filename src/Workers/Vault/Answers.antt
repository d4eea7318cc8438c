-- ===== src/Workers/Vault/Answers.antt =====
-- The responses of the vault service: vault-service/internal/service/handler.go.
use proctssor.Prelude.{ℕ, String, refl, Option-cases, Result-cases, inl, inr}
use proctssor.Workers.{WorkflowCommand, IsAnswer, new_response, text_input}
use proctssor.Workers.Answers.{refuse-IsAnswer, succeed-IsAnswer, differ}
use proctssor.Workers.Vault.{
  MemoryStorage, get, delete, get_full_key, handle_get_secret, handle_set_secret,
  handle_delete_secret, handle_list_secrets, handle_health_check, handle_unknown_operation,
  handle_command, Operation, get_secret, set_secret, delete_secret, list_secrets, health_check,
  unknown, operation_of, dispatch,
}

module _ (prefix : String) (cmd : WorkflowCommand) where
  get_secret-IsAnswer :
      (now : ℕ) (s : MemoryStorage)
      → IsAnswer cmd (handle_get_secret prefix s cmd (new_response now cmd)).0
  unfolding handle_get_secret
  get_secret-IsAnswer now s = elim (Option-cases (text_input cmd "key")) [
    | inl unkeyed ↦
        rw (handle_get_secret, unkeyed)
          (refuse-IsAnswer now cmd "invalid_input" _ (differ "invalid_input" "" refl))
    | inr (key, keyed) ↦ elim (Result-cases (get s (get_full_key prefix key))) [
      | inl (secret, found) ↦ rw (handle_get_secret, keyed, found) (succeed-IsAnswer now cmd _)
      | inr (message, lacking) ↦
          rw (handle_get_secret, keyed, lacking)
            (refuse-IsAnswer now cmd "secret_not_found" message (differ "secret_not_found" "" refl))
    ]
  ]

  set_secret-IsAnswer :
      (now : ℕ → ℕ) (s : MemoryStorage)
      → IsAnswer cmd (handle_set_secret prefix now s cmd (new_response (now 0) cmd)).0
  unfolding handle_set_secret
  set_secret-IsAnswer now s = elim (Option-cases (text_input cmd "key")) [
    | inl unkeyed ↦
        rw (handle_set_secret, unkeyed)
          (refuse-IsAnswer (now 0) cmd "invalid_input" _ (differ "invalid_input" "" refl))
    | inr (key, keyed) ↦ elim (Option-cases (text_input cmd "value")) [
      | inl unvalued ↦
          rw (handle_set_secret, keyed, unvalued)
            (refuse-IsAnswer (now 0) cmd "invalid_input" _ (differ "invalid_input" "" refl))
      | inr (value, valued) ↦ rw (handle_set_secret, keyed, valued) (succeed-IsAnswer (now 0) cmd _)
    ]
  ]

  delete_secret-IsAnswer :
      (now : ℕ) (s : MemoryStorage)
      → IsAnswer cmd (handle_delete_secret prefix s cmd (new_response now cmd)).0
  unfolding handle_delete_secret
  delete_secret-IsAnswer now s = elim (Option-cases (text_input cmd "key")) [
    | inl unkeyed ↦
        rw (handle_delete_secret, unkeyed)
          (refuse-IsAnswer now cmd "invalid_input" _ (differ "invalid_input" "" refl))
    | inr (key, keyed) ↦ elim (Option-cases (delete s (get_full_key prefix key)).0) [
      | inl deleted ↦ rw (handle_delete_secret, keyed, deleted) (succeed-IsAnswer now cmd _)
      | inr (message, lacking) ↦
          rw (handle_delete_secret, keyed, lacking)
            (refuse-IsAnswer now cmd "deletion_error" message (differ "deletion_error" "" refl))
    ]
  ]

  dispatch-IsAnswer :
      (op : Operation) (now : ℕ → ℕ) (s : MemoryStorage)
      → IsAnswer cmd (dispatch op prefix now s cmd (new_response (now 0) cmd)).0
  unfolding dispatch handle_list_secrets handle_health_check handle_unknown_operation
  dispatch-IsAnswer get_secret now s = get_secret-IsAnswer (now 0) s
  dispatch-IsAnswer set_secret now s = set_secret-IsAnswer now s
  dispatch-IsAnswer delete_secret now s = delete_secret-IsAnswer (now 0) s
  dispatch-IsAnswer list_secrets now s = succeed-IsAnswer (now 0) cmd _
  dispatch-IsAnswer health_check now s = succeed-IsAnswer (now 0) cmd _
  dispatch-IsAnswer unknown now s =
      refuse-IsAnswer (now 0) cmd "unknown_operation" _ (differ "unknown_operation" "" refl)

  -- Every command is answered: the response repeats its identifiers and is a success, or an error
  -- with a code.
  pub handle_command-IsAnswer :
      (now : ℕ → ℕ) (s : MemoryStorage) → IsAnswer cmd (handle_command prefix now s cmd).0
  unfolding handle_command
  handle_command-IsAnswer now s = dispatch-IsAnswer (operation_of cmd.operation) now s

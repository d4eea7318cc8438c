-- ===== src/Token/Refusals.antt =====
-- What a refused call leaves behind, and which statuses are ends.
use proctssor.Prelude.{ℕ, String, ◌≡◌, refl, ◌⊎◌, List, [], ◌∷◌, Option, none, some, arith, All}
use proctssor.Token.{
  TokenStatus, active, completed, terminated, Token, TokenError, Op, start, trigger, fail_with,
  await_for, TransitionError, apply, run,
}
use proctssor.Token.Diagram.{Follows}

-- The error that a call leaves in the token before the diagram is asked.
abbrev pub stored : Op → Option TokenError → Option TokenError
stored (fail_with (some message)) e = some (record { code = ""; message = message; stack = "" })
stored _ e = e

-- A refused call changes nothing of the token, but that `Fail` has already replaced its error.
pub apply_refused :
    (now : ℕ → ℕ) (t : Token) (op : Op) {e : TransitionError}
    → (apply now t op).1 ≡ some e
    → (apply now t op).0 ≡ record t { error = stored op t.error }
unfolding apply
apply_refused now t start h = ground arith
apply_refused now t (fail_with none) h = ground arith
apply_refused now t (fail_with (some message)) h = ground arith
apply_refused now t _ h = ground arith

abbrev pub IsFinal : TokenStatus → Type 0
IsFinal status = (status ≡ completed) ⊎ (status ≡ terminated)

record Kept (t u : Token) : Type 0 where
  status : u.status ≡ t.status
  history : u.history ≡ t.history
  completed_at : u.completed_at ≡ t.completed_at

apply_final :
    (now : ℕ → ℕ) (t : Token) (op : Op) → IsFinal t.status → Follows op → Kept t (apply now t op).0
unfolding apply
apply_final now t start h f = ground arith
apply_final now t (fail_with none) h f = ground arith
apply_final now t (fail_with (some message)) h f = ground arith
apply_final now t (await_for kind) h f = absurd f
apply_final now t _ h f = ground arith

-- A completed or terminated token keeps its status, its history and its end for ever, whatever
-- calls are made on it, as long as none of them is `Await`.
pub run_final :
    (t : Token) (ops : List ((ℕ → ℕ) × Op))
    → IsFinal t.status
    → All (λ call. Follows call.1) ops
    → ((run t ops).status ≡ t.status)
      × ((run t ops).history ≡ t.history)
      × ((run t ops).completed_at ≡ t.completed_at)
unfolding run
run_final t [] h f = (refl, refl, refl)
run_final t ((now, op) ∷ ops) h f =
    let k = apply_final now t op h f.0 in ground (arith, k, run_final (apply now t op).0 ops)

-- `Await` asks no diagram: followed by `Trigger` it makes any token active again, a completed
-- or terminated one too, and no call reports an error.
pub await_revives :
    (now now' : ℕ → ℕ) (t : Token) (kind : String)
    → let (t', e) = apply now t (await_for kind) in
      (e ≡ none) × ((apply now' t' trigger).0.status ≡ active) × ((apply now' t' trigger).1 ≡ none)
unfolding apply
await_revives now now' t kind = (refl, refl, refl)

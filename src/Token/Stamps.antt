-- ===== src/Token/Stamps.antt =====
-- What the time stamps of a token say of its status.
use proctssor.Prelude.{ℕ, String, ◌≡◌, true, List, [], ◌∷◌, none, some, arith, is_some}
use proctssor.Token.{
  active, Token, Variables, Op, start, fail_with, new_token, is_terminal, apply, run,
}

-- A token at an end, as `IsTerminal` has it, carries the time of that end, an active one the
-- time of its start.
pub record IsStamped (t : Token) : Type 0 where
  pub ended : is_terminal t.status ≡ true → is_some t.completed_at ≡ true
  pub begun : t.status ≡ active → is_some t.started_at ≡ true

apply-IsStamped : (now : ℕ → ℕ) (t : Token) (op : Op) → IsStamped t → IsStamped (apply now t op).0
unfolding apply is_terminal
apply-IsStamped now t start h = ground arith
apply-IsStamped now t (fail_with none) h = ground arith
apply-IsStamped now t (fail_with (some message)) h = ground arith
apply-IsStamped now t _ h = ground arith

run-IsStamped : (t : Token) (ops : List ((ℕ → ℕ) × Op)) → IsStamped t → IsStamped (run t ops)
unfolding run
run-IsStamped t [] h = h
run-IsStamped t ((now, op) ∷ ops) h =
    run-IsStamped (apply now t op).0 ops (apply-IsStamped now t op h)

-- After any calls on a new token, `Await` among them, a completed, failed or terminated token
-- carries the time of its end, and an active one the time of its start.
pub run_stamps :
    (fresh : String) (created : ℕ) (instance_id node_id : String) (variables : Variables)
    (ops : List ((ℕ → ℕ) × Op))
    → IsStamped (run (new_token fresh created instance_id node_id variables) ops)
unfolding new_token is_terminal
run_stamps fresh created instance_id node_id variables ops =
    run-IsStamped (new_token fresh created instance_id node_id variables) ops (ground arith)

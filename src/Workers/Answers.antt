-- ===== src/Workers/Answers.antt =====
-- Finished responses of the workers: the guards and ends that their handlers share.
use proctssor.Prelude.{
  String, ℕ, ◌==◌, eq_iff, ◌≡◌, ◌≢◌, inl, inr, refl, false, Map, Option, none, some, arith,
}
use proctssor.Workers.{WorkflowCommand, IsAnswer, new_response, refuse, succeed, require}

-- Two texts that the test tells apart.
pub differ : (a b : String) → (a == b) ≡ false → a ≢ b
differ a b h e = ground (arith, eq_iff a b)

module _ {V : Type 0} (now : ℕ) (cmd : WorkflowCommand) where
  pub refuse-IsAnswer :
      (code message : String)
      → code ≢ ""
      → IsAnswer cmd (refuse (new_response {V = V} now cmd) code message)
  refuse-IsAnswer code message named = record {
    same_command = refl;
    same_instance = refl;
    same_token = refl;
    same_node = refl;
    settled = inr (refl, named, refl);
  }

  pub succeed-IsAnswer : (outputs : Map V) → IsAnswer cmd (succeed (new_response now cmd) outputs)
  succeed-IsAnswer outputs = record {
    same_command = refl;
    same_instance = refl;
    same_token = refl;
    same_node = refl;
    settled = inl (refl, refl);
  }

-- A property of both ways on from a guard.
pub require_both :
    {A R : Type 0} (P : R → Type 0) (o : Option A) (bail : R) (rest : A → R)
    → P bail
    → ((a : A) → P (rest a))
    → P (require o bail rest)
unfolding require
require_both P none bail rest refused held = refused
require_both P (some a) bail rest refused held = held a

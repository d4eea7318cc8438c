-- ===== src/Executor/Retry.antt =====
-- The attempts of `publish_with_retry`.
use mathlib.Core.List.{append_assoc, append-nil}
use proctssor.Prelude.{
  ℕ, zero, suc, ◌<◌, String, eq_iff, ◌≡◌, ◌≢◌, ◌⊎◌, refl, sym, ◌∙◌, ap, inl, inr, [], ◌∷◌, ◌++◌,
  Option, none, some, is_some, true, arith, Option-cases, subst,
}
use proctssor.Executor.Publisher.{
  WorkflowCommand, Sent, Publisher, prepare, publish_command, publish_with_retry,
}

abbrev pub copies : ℕ → WorkflowCommand → Sent
copies zero cmd = []
copies (suc n) cmd = cmd ∷ copies n cmd

-- A command that was filled in is not filled in again.
prepare_idem :
    (timeout : ℕ) (fresh fresh' : String) (now now' : ℕ) (cmd : WorkflowCommand)
    → fresh ≢ ""
    → prepare timeout fresh' now' (prepare timeout fresh now cmd) ≡ prepare timeout fresh now cmd
unfolding prepare
prepare_idem timeout fresh fresh' now now' cmd h =
    ground (arith, eq_iff fresh "", eq_iff cmd.command_id "")

-- How `left` attempts with one command went: `retries` of them were repeated, each because it was
-- refused, each sent the same command, the error is the answer to the last, and none was left if it
-- is one.
pub record Attempted (p : Publisher) (sent : Sent) (left : ℕ) (cmd : WorkflowCommand)
    (fault : Option String) (sent' : Sent) : Type 0 where
  pub retries : ℕ
  pub bound : retries < left
  pub attempts : sent' ≡ sent ++ copies (suc retries) cmd
  pub refused : (i : ℕ) → i < retries → is_some (p.transport (sent ++ copies i cmd) cmd) ≡ true
  pub last : fault ≡ p.transport (sent ++ copies retries cmd) cmd
  pub exhausted : (fault ≡ none) ⊎ (suc retries ≡ left)

refused_before :
    (p : Publisher) (sent : Sent) (cmd : WorkflowCommand) (n : ℕ)
    → is_some (p.transport sent cmd) ≡ true
    → ((i : ℕ) → i < n → is_some (p.transport ((sent ++ cmd ∷ []) ++ copies i cmd) cmd) ≡ true)
    → (i : ℕ) → i < suc n
    → is_some (p.transport (sent ++ copies i cmd) cmd) ≡ true
refused_before p sent cmd n first more zero h =
    ap (λ l. is_some (p.transport l cmd)) (append-nil sent) ∙ first
refused_before p sent cmd n first more (suc i) h =
    ap (λ l. is_some (p.transport l cmd)) (sym (append_assoc sent (cmd ∷ []) (copies i cmd)))
    ∙ more i (omega (arith, h))

attempt_again :
    (p : Publisher) (sent : Sent) (left : ℕ) (cmd : WorkflowCommand) (fault : Option String)
    (sent' : Sent)
    → is_some (p.transport sent cmd) ≡ true
    → Attempted p (sent ++ cmd ∷ []) left cmd fault sent'
    → Attempted p sent (suc left) cmd fault sent'
attempt_again p sent left cmd fault sent' first a = record {
  retries = suc a.retries;
  bound = omega (arith, a.bound);
  attempts = a.attempts ∙ append_assoc sent (cmd ∷ []) (copies (suc a.retries) cmd);
  refused = refused_before p sent cmd a.retries first a.refused;
  last = a.last ∙ ap (λ l. p.transport l cmd) (append_assoc sent (cmd ∷ []) (copies a.retries cmd));
  exhausted = ground (arith, a.exhausted);
}

one_attempt :
    (p : Publisher) (sent : Sent) (left : ℕ) (cmd : WorkflowCommand) (fault : Option String)
    → p.transport sent cmd ≡ fault
    → (fault ≡ none) ⊎ (1 ≡ suc left)
    → Attempted p sent (suc left) cmd fault (sent ++ cmd ∷ [])
one_attempt p sent left cmd fault e over = record {
  retries = 0;
  bound = omega arith;
  attempts = refl;
  refused = λ i h. absurd (omega (arith, h));
  last = sym e ∙ ap (λ l. p.transport l cmd) (sym (append-nil sent));
  exhausted = over;
}

retry-again :
    (p : Publisher) (sent : Sent) (fresh : ℕ → String) (now : ℕ → ℕ) (k n : ℕ)
    (cmd : WorkflowCommand) (reason : String)
    → let cmd' = prepare p.timeout (fresh k) (now k) cmd in
      p.transport sent cmd' ≡ some reason
      → publish_with_retry p sent fresh now k (suc (suc n)) cmd
        ≡ publish_with_retry p (sent ++ cmd' ∷ []) fresh now (suc k) (suc n) cmd'
unfolding publish_with_retry publish_command
retry-again p sent fresh now k n cmd reason refused =
    ap
      (λ answer. elim answer [
        | none ↦ (none, sent ++ prepare p.timeout (fresh k) (now k) cmd ∷ [])
        | some _ ↦
            publish_with_retry p (sent ++ prepare p.timeout (fresh k) (now k) cmd ∷ []) fresh now
              (suc k) (suc n) (prepare p.timeout (fresh k) (now k) cmd)
      ])
      refused

-- Where identifiers are not empty, the loop makes at least one attempt and at most the allowed
-- number, each with the command that the first attempt filled in, so with one identifier; it goes
-- on only after a refusal, the error is the answer to the last attempt, and it gives up only when
-- no attempt is left.
pub publish_with_retry_lem :
    (p : Publisher) (sent : Sent) (fresh : ℕ → String) (now : ℕ → ℕ) (k n : ℕ)
    (cmd : WorkflowCommand)
    → ((j : ℕ) → fresh j ≢ "")
    → let (fault, sent') = publish_with_retry p sent fresh now k (suc n) cmd in
      Attempted p sent (suc n) (prepare p.timeout (fresh k) (now k) cmd) fault sent'
unfolding publish_with_retry publish_command
publish_with_retry_lem p sent fresh now k zero cmd h =
    let cmd' = prepare p.timeout (fresh k) (now k) cmd in
    elim (Option-cases (p.transport sent cmd')) [
      | inl taken ↦ rw (taken, publish_with_retry) (one_attempt p sent 0 cmd' none taken (inl refl))
      | inr (reason, refused) ↦
          rw (refused, publish_with_retry)
            (one_attempt p sent 0 cmd' (some reason) refused (inr refl))
    ]
publish_with_retry_lem p sent fresh now k (suc n) cmd h =
    let cmd' = prepare p.timeout (fresh k) (now k) cmd in
    let same = prepare_idem p.timeout (fresh k) (fresh (suc k)) (now k) (now (suc k)) cmd (h k) in
    let once = sent ++ cmd' ∷ [] in
    let later = publish_with_retry p once fresh now (suc k) (suc n) cmd' in
    let rest = publish_with_retry_lem p once fresh now (suc k) n cmd' h in
    elim (Option-cases (p.transport sent cmd')) [
      | inl taken ↦
          rw (taken, publish_with_retry) (one_attempt p sent (suc n) cmd' none taken (inl refl))
      | inr (reason, refused) ↦ rw (retry-again p sent fresh now k n cmd reason refused) (
          attempt_again p sent (suc n) cmd' later.0 later.1 (ap is_some refused)
            (subst (λ c. Attempted p once (suc n) c later.0 later.1) same rest))
    ]

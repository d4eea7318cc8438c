-- ===== src/Token/History.antt =====
-- The history of a token is a walk through the diagram.
use proctssor.Prelude.{
  ℕ, String, ◌≡◌, ◌≢◌, inl, inr, refl, sym, ◌∙◌, true, false, List, [], ◌∷◌, ◌++◌, none, some,
  arith, All, Bool-cases,
}
use proctssor.Token.{
  TokenStatus, pending, active, waiting, completed, failed, terminated, suspended, Token,
  TokenHistory, Variables, Op, start, complete, terminate, suspend, resume, trigger, fail_with,
  await_for, new_token, can_transition, transition, await, apply, run,
}
use proctssor.Token.Diagram.{◌⟶◌, Follows, can_transition_iff}

-- Each entry follows an edge of the diagram and begins where the entry before it ended.
abbrev pub Links : TokenStatus → List TokenHistory → TokenStatus → Type 0
Links s [] u = s ≡ u
Links s (entry ∷ entries) u =
    (entry.from_status ≡ s)
    × (entry.from_status ⟶ entry.to_status)
    × Links entry.to_status entries u

Links-append :
    (s : TokenStatus) (es : List TokenHistory) (e : TokenHistory)
    → Links s es e.from_status
    → e.from_status ⟶ e.to_status
    → Links s (es ++ e ∷ []) e.to_status
Links-append s [] e h step = (sym h, step, refl)
Links-append s (x ∷ es) e h step = (h.0, h.1, Links-append x.to_status es e h.2 step)

Links-append_inv :
    (s : TokenStatus) (es : List TokenHistory) (e : TokenHistory) (u : TokenStatus)
    → Links s (es ++ e ∷ []) u
    → Links s es e.from_status
Links-append_inv s [] e u h = sym h.0
Links-append_inv s (x ∷ es) e u h = (h.0, h.1, Links-append_inv x.to_status es e u h.2)

-- A walk has one end.
Links-end :
    (s : TokenStatus) (es : List TokenHistory) (u v : TokenStatus)
    → Links s es u
    → Links s es v
    → u ≡ v
Links-end s [] u v h k = sym h ∙ k
Links-end s (x ∷ es) u v h k = Links-end x.to_status es u v h.2 k.2

-- The entry that a call through the diagram adds when it is accepted.
entry_of : (ℕ → ℕ) → Token → TokenStatus → String → TokenHistory
entry_of now t to action = record {
  from_status = t.status;
  to_status = to;
  timestamp = now 0;
  action = action;
}

transition_accepted :
    (now : ℕ → ℕ) (t : Token) (to : TokenStatus) (action : String)
    → can_transition t.status to ≡ true
    → ((transition now t to action).0.history ≡ t.history ++ entry_of now t to action ∷ [])
      × ((transition now t to action).0.status ≡ to)
unfolding transition entry_of
transition_accepted now t pending action h = ground arith
transition_accepted now t _ action h = ground arith

transition_refused :
    (now : ℕ → ℕ) (t : Token) (to : TokenStatus) (action : String)
    → can_transition t.status to ≡ false
    → (transition now t to action).0 ≡ t
unfolding transition
transition_refused now t to action h = ground arith

transition-Links :
    (s : TokenStatus) (now : ℕ → ℕ) (t : Token) (to : TokenStatus) (action : String)
    → Links s t.history t.status
    → Links s (transition now t to action).0.history (transition now t to action).0.status
unfolding entry_of
transition-Links s now t to action h = elim (Bool-cases (can_transition t.status to)) [
  | inl allowed ↦
      let (added, moved) = transition_accepted now t to action allowed in
      rw (added, moved)
        (Links-append s t.history (entry_of now t to action) h
          ((can_transition_iff t.status to).0 allowed))
  | inr refused ↦ rw (transition_refused now t to action refused) h
]

apply-Links :
    (s : TokenStatus) (now : ℕ → ℕ) (t : Token) (op : Op)
    → Follows op
    → Links s t.history t.status
    → Links s (apply now t op).0.history (apply now t op).0.status
unfolding apply
apply-Links s now t start f h = transition-Links s now t active "start" h
apply-Links s now t complete f h = transition-Links s now t completed "complete" h
apply-Links s now t terminate f h = transition-Links s now t terminated "terminate" h
apply-Links s now t suspend f h = transition-Links s now t suspended "suspend" h
apply-Links s now t resume f h = transition-Links s now t active "resume" h
apply-Links s now t trigger f h = transition-Links s now t active "trigger" h
apply-Links s now t (fail_with none) f h = transition-Links s now t failed "fail" h
apply-Links s now t (fail_with (some message)) f h =
    transition-Links s now
      (record t { error = some (record { code = ""; message = message; stack = "" }) }) failed
      "fail" h
apply-Links s now t (await_for kind) f h = absurd f

run-Links :
    (s : TokenStatus) (t : Token) (ops : List ((ℕ → ℕ) × Op))
    → All (λ call. Follows call.1) ops
    → Links s t.history t.status
    → Links s (run t ops).history (run t ops).status
unfolding run
run-Links s t [] f h = h
run-Links s t ((now, op) ∷ ops) f h =
    run-Links s (apply now t op).0 ops f.1 (apply-Links s now t op f.0 h)

-- From `NewToken` on, whatever calls other than `Await` are made and whichever of them are
-- refused, the history is a walk through the diagram from pending to the present status.
pub run_walks :
    (fresh : String) (created : ℕ) (instance_id node_id : String) (variables : Variables)
    (ops : List ((ℕ → ℕ) × Op))
    → All (λ call. Follows call.1) ops
    → let t = run (new_token fresh created instance_id node_id variables) ops in
      Links pending t.history t.status
unfolding new_token
run_walks fresh created instance_id node_id variables ops f =
    run-Links pending (new_token fresh created instance_id node_id variables) ops f refl

-- `Await` on a token that was not waiting breaks the walk: it records `waiting` for the status
-- that the token had before, so no history that was a walk is one afterwards.
pub await_breaks_walk :
    (now : ℕ → ℕ) (t : Token) (kind : String)
    → t.status ≢ waiting
    → Links pending t.history t.status
    → let t' = (apply now t (await_for kind)).0 in ¬ Links pending t'.history t'.status
unfolding apply await
await_breaks_walk now t kind moved h broken =
    moved (Links-end pending t.history _ _ h (Links-append_inv pending t.history _ _ broken))

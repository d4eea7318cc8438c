-- ===== src/Tests/Tokens.antt =====
-- The theorems on tokens, tried on short runs.
use proctssor.Prelude.{ℕ, ◌≡◌, refl, List, [], ◌∷◌, some}
use proctssor.Token.{
  Token, TokenStatus, pending, completed, invalid_transition, Op, start, complete, suspend, trigger,
  fail_with, new_token, apply, run,
}
use proctssor.Token.History.{Links, run_walks}

abbrev ticks : ℕ → ℕ
ticks k = k

abbrev fresh : Token
fresh = new_token "t" 0 "i" "start" []

abbrev life : List ((ℕ → ℕ) × Op)
life =
    (ticks, start)
    ∷ (ticks, suspend)
    ∷ (ticks, complete)
    ∷ (ticks, trigger)
    ∷ (ticks, complete)
    ∷ []

ended : Token
ended = run fresh life

life_ends : ended.status ≡ completed
unfolding ended run apply new_token
life_ends = refl

run_walks_example : Links pending (run fresh life).history (run fresh life).status
run_walks_example = run_walks "t" 0 "i" "start" [] life (tt, (tt, (tt, (tt, (tt, tt)))))

fail_refused :
    (apply ticks fresh (fail_with (some "early"))).1
    ≡ some (invalid_transition pending TokenStatus.failed)
unfolding apply new_token
fail_refused = refl

-- ===== src/Token/Diagram.antt =====
-- The diagram of token statuses, apart from the tables of statemachine.go.
use proctssor.Prelude.{◌≡◌, refl, ◌↔◌, true, arith}
use proctssor.Token.{
  TokenStatus, pending, active, waiting, completed, failed, terminated, suspended, Op, await_for,
  can_transition,
}

-- A token is created, works, waits and is suspended while it is live; an end is for good, but
-- that a failed token may be tried again.
pub data IsLive : TokenStatus → Type 0 where
  live_pending : IsLive pending
  live_active : IsLive active
  live_waiting : IsLive waiting
  live_suspended : IsLive suspended

infix 40 ◌⟶◌
pub data ◌⟶◌ : TokenStatus → TokenStatus → Type 0 where
  begin : pending ⟶ active
  park : pending ⟶ waiting
  wake : waiting ⟶ active
  return : suspended ⟶ active
  retry : failed ⟶ active
  finish : active ⟶ completed
  break : active ⟶ failed
  block : active ⟶ waiting
  hold : active ⟶ suspended
  hold_waiting : waiting ⟶ suspended
  kill : {s : TokenStatus} → IsLive s → s ⟶ terminated
  bury : failed ⟶ terminated

ruleset edges = (
  begin, park, wake, return, retry, finish, break, block, hold, hold_waiting, kill, bury,
  live_pending, live_active, live_waiting, live_suspended,
)

complete_table : {s t : TokenStatus} → s ⟶ t → can_transition s t ≡ true
unfolding can_transition
complete_table begin = refl
complete_table park = refl
complete_table wake = refl
complete_table return = refl
complete_table retry = refl
complete_table finish = refl
complete_table break = refl
complete_table block = refl
complete_table hold = refl
complete_table hold_waiting = refl
complete_table (kill live_pending) = refl
complete_table (kill live_active) = refl
complete_table (kill live_waiting) = refl
complete_table (kill live_suspended) = refl
complete_table bury = refl

sound_table : (s t : TokenStatus) → can_transition s t ≡ true → s ⟶ t
unfolding can_transition
sound_table s t h = grind (arith, edges)

-- `CanTransition` decides the diagram: it answers true exactly on its edges.
pub can_transition_iff : (s t : TokenStatus) → (can_transition s t ≡ true) ↔ (s ⟶ t)
can_transition_iff s t = (sound_table s t, complete_table)

-- The calls that go through the diagram: all but `Await`.
abbrev pub Follows : Op → Type 0
Follows (await_for kind) = ⊥
Follows _ = Unit

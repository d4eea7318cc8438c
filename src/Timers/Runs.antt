-- ===== src/Timers/Runs.antt =====
-- Calls of the timer manager one after the other: engine/internal/integration/nats/timer.go.
use proctssor.Prelude.{
  ℕ, String, ◌==◌, inl, inr, List, [], ◌∷◌, if◌then◌else◌, exists, All-append, arith, Option-cases,
  Bool-cases,
}
use proctssor.Timers.{
  TimerType, TimerJobStatus, TimerJob, Table, is_pending, find_row, Statement, TimerCommand,
  Backend, schedule_timer, cancel_timer, due_timers, cleanup_timers,
}
use proctssor.Timers.Manager.{finishing, repeats, process_due_timers, timer_fired}
use proctssor.Timers.Rows.{
  update_row-IsKeyed, update_row-All, update_row-All_at, select-IsKeyed, append-IsKeyed,
  find_row-All,
}
use proctssor.Timers.Due.{select-All}
use proctssor.Timers.Sound.{
  IsSound, IsSoundTable, execute_timers-IsSoundTable, due_timers-IsReady, due_timers-IsKeyed,
}

-- The calls that change the table, each with what it reads of the clock and of the database.
pub data TimerOp : Type 0 where
  schedule : String → (ℕ → ℕ) → String → String → String → TimerType → ℕ → TimerOp
  cancels : ℕ → String → TimerOp
  process : ℕ → (String → ℕ → ℕ) → TimerOp
  confirm : ℕ → String → TimerOp
  cleanup : ℕ → ℕ → TimerOp

-- Between calls only the table lives on; the published commands stand in the backend's answers.
unfoldable pub perform : Backend → List TimerCommand → TimerOp → Table → Table × List TimerCommand
perform b sent (schedule fresh now i n k kind span) t =
    ((schedule_timer b fresh now i n k kind span t).1, sent)
perform b sent (cancels now id) t = ((cancel_timer b now id t).1, sent)
perform b sent (process db_now now) t =
    let (_, t', _, sent') = process_due_timers b db_now now sent t in (t', sent')
perform b sent (confirm now id) t = ((timer_fired b now id t).1, sent)
perform b sent (cleanup db_now older) t = ((cleanup_timers b db_now older t).1, sent)

-- Each call meets a backend of its own.
unfoldable pub run :
    List (Backend × TimerOp) → List TimerCommand → Table → Table × List TimerCommand
run [] sent t = (t, sent)
run ((b, op) ∷ ops) sent t = let (t', sent') = perform b sent op t in run ops sent' t'

schedule-IsSoundTable :
    (b : Backend) (fresh : String) (now : ℕ → ℕ) (i n k : String) (kind : TimerType) (span : ℕ)
    (t : Table)
    → IsSoundTable t
    → IsSoundTable (schedule_timer b fresh now i n k kind span t).1
unfolding schedule_timer
schedule-IsSoundTable b fresh now i n k kind span t s =
    elim (Option-cases (b.fault fresh Statement.insert)) [
      | inr (e, bad) ↦ rw (schedule_timer, bad) s
      | inl works ↦ elim (Bool-cases (exists (λ (r : TimerJob). r.id == fresh) t)) [
        | inl taken ↦ rw (schedule_timer, works, taken) s
        | inr free ↦
            rw (schedule_timer, works, free)
              (record {
                rows = All-append IsSound t _ s.rows (
                  record { within = omega arith; left = λ _. omega arith; settled = λ e. cc },
                  tt,
                );
                keyed = append-IsKeyed _ t free s.keyed;
              })
      ]
    ]

cancelled-IsSound :
    (now : ℕ) (job : TimerJob)
    → IsSound job
    → IsSound (
        if is_pending job
        then record job { status = TimerJobStatus.cancelled; updated_at = now }
        else job)
cancelled-IsSound now job s = elim (Bool-cases (is_pending job)) [
  | inl waiting ↦ rw waiting (record { within = s.within; left = λ e. cc; settled = λ e. cc })
  | inr other ↦ rw other s
]

cancel-IsSoundTable :
    (b : Backend) (now : ℕ) (id : String) (t : Table)
    → IsSoundTable t
    → IsSoundTable (cancel_timer b now id t).1
unfolding cancel_timer
cancel-IsSoundTable b now id t s = elim (Option-cases (b.fault id Statement.cancel)) [
  | inr (e, bad) ↦ rw (cancel_timer, bad) s
  | inl works ↦
      rw (cancel_timer, works)
        (record {
          rows = update_row-All IsSound id _ t (cancelled-IsSound now) s.rows;
          keyed = update_row-IsKeyed id _ t (λ r. ground arith) s.keyed;
        })
]

finished-IsSound :
    (now : ℕ) (job : TimerJob)
    → IsSound job
    → IsSound (finishing now (repeats now job job.attempt_count) job)
finished-IsSound now job s = record {
  within = ground (arith, s.within);
  left = λ q. ground (arith, s.left, q);
  settled = λ e. ground (arith, e);
}

confirm-IsSoundTable :
    (b : Backend) (now : ℕ) (id : String) (t : Table)
    → IsSoundTable t
    → IsSoundTable (timer_fired b now id t).1
unfolding timer_fired
confirm-IsSoundTable b now id t s = elim (Option-cases (b.fault id Statement.read)) [
  | inr (e, bad) ↦ rw (timer_fired, bad) s
  | inl works ↦ elim (Option-cases (find_row id t)) [
    | inl missing ↦ rw (timer_fired, works, missing) s
    | inr (job, found) ↦ elim (Option-cases (b.fault id Statement.finish)) [
      | inr (e, bad) ↦ rw (timer_fired, works, found, bad) s
      | inl stored ↦
          let sj = find_row-All IsSound id t job s.rows found in
          let change = finishing now (repeats now job job.attempt_count) in
          rw (timer_fired, works, found, stored)
            (record {
              rows =
                  update_row-All_at IsSound id change t job s.keyed found
                    (finished-IsSound now job sj) s.rows;
              keyed = update_row-IsKeyed id change t (λ r. ground arith) s.keyed;
            })
    ]
  ]
]

cleanup-IsSoundTable :
    (b : Backend) (db_now older : ℕ) (t : Table)
    → IsSoundTable t
    → IsSoundTable (cleanup_timers b db_now older t).1
unfolding cleanup_timers
cleanup-IsSoundTable b db_now older t s = elim (Option-cases (b.fault "" Statement.clean)) [
  | inr (e, bad) ↦ rw (cleanup_timers, bad) s
  | inl works ↦
      rw (cleanup_timers, works)
        (record { rows = select-All IsSound _ t s.rows; keyed = select-IsKeyed _ t s.keyed })
]

process-IsSoundTable :
    (b : Backend) (db_now : ℕ) (now : String → ℕ → ℕ) (sent : List TimerCommand) (t : Table)
    → IsSoundTable t
    → IsSoundTable (process_due_timers b db_now now sent t).1
unfolding process_due_timers
process-IsSoundTable b db_now now sent t s = elim (Option-cases (b.fault "" Statement.read)) [
  | inr (e, bad) ↦ rw (process_due_timers, bad) s
  | inl works ↦
      rw (process_due_timers, works)
        (execute_timers-IsSoundTable b now sent (due_timers db_now t) t s
          (due_timers-IsKeyed db_now t s.keyed) (due_timers-IsReady db_now t s))
]

perform-IsSoundTable :
    (b : Backend) (sent : List TimerCommand) (op : TimerOp) (t : Table)
    → IsSoundTable t
    → IsSoundTable (perform b sent op t).0
unfolding perform
perform-IsSoundTable b sent (schedule fresh now i n k kind span) t s =
    schedule-IsSoundTable b fresh now i n k kind span t s
perform-IsSoundTable b sent (cancels now id) t s = cancel-IsSoundTable b now id t s
perform-IsSoundTable b sent (process db_now now) t s = process-IsSoundTable b db_now now sent t s
perform-IsSoundTable b sent (confirm now id) t s = confirm-IsSoundTable b now id t s
perform-IsSoundTable b sent (cleanup db_now older) t s = cleanup-IsSoundTable b db_now older t s

-- From a sound table, any calls one after the other, whatever fails in them, lead to a sound table:
-- identifiers stay unique, no timer has more attempts than it may, a pending one has attempts left,
-- and none is ever stored as running.
pub run-IsSoundTable :
    (ops : List (Backend × TimerOp)) (sent : List TimerCommand) (t : Table)
    → IsSoundTable t
    → IsSoundTable (run ops sent t).0
unfolding run
run-IsSoundTable [] sent t s = s
run-IsSoundTable ((b, op) ∷ ops) sent t s =
    run-IsSoundTable ops (perform b sent op t).1 (perform b sent op t).0
      (perform-IsSoundTable b sent op t s)

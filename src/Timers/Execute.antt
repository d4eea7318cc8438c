-- ===== src/Timers/Execute.antt =====
-- What one execution of a timer does: `executeTimer` of
-- engine/internal/integration/nats/timer.go.
use proctssor.Prelude.{
  ℕ, ◌+◌, ◌<◌, ◌≤◌, Bool, true, false, Option, String, eq_iff, ◌≡◌, ◌≢◌, ◌⊎◌, inl, inr, refl, sym,
  ◌∙◌, ap, List, [], ◌∷◌, ◌++◌, none, some, if◌then◌else◌, is_some, arith, Option-cases,
}
use proctssor.Timers.{
  TimerJobStatus, TimerJob, Table, update_row, find_row, Statement, TimerCommand, Backend,
  cancel_timer,
}
use proctssor.Timers.Manager.{
  Outcome, fired, command, repeats, starting, finishing, failing, mark_timer_job_failed,
  finish_timer, execute_timer,
}
use proctssor.Timers.Rows.{find_row-update_row, update_row-update_row}
use mathlib.Core.Path.{fun_ext}
use mathlib.Core.List.{append-nil}

-- The row behind an execution, which was the `count`-th.
abbrev pub executed : (ℕ → ℕ) → TimerJob → ℕ → TimerJob → TimerJob
executed now job count row = finishing (now 1) (repeats (now 1) job count) (starting (now 0) row)

abbrev pub announced : Backend → TimerJob → List TimerCommand
announced b job = if is_some b.publisher then command job ∷ [] else []

-- The publisher refuses the job's command.
abbrev pub is_refused : Backend → List TimerCommand → TimerJob → Bool
is_refused b sent job = elim b.publisher [
  | none ↦ false
  | some publish ↦ is_some (publish sent (command job))
]

-- A completed execution, with the row that it stores.
pub record Ended (b : Backend) (now : ℕ → ℕ) (sent : List TimerCommand) (job : TimerJob) (t : Table)
    (r : Table × Outcome × List TimerCommand) : Type 0 where
  pub row : TimerJob
  pub found : find_row job.id t ≡ some row
  pub stored : r.0 ≡ update_row job.id (executed now job (row.attempt_count + 1)) t
  pub told : r.2 ≡ sent ++ announced b job

-- An execution that did not complete: nothing is stored, or that a refused timer has failed.
abbrev pub Unfired :
    Backend
    → (ℕ → ℕ)
    → List TimerCommand
    → TimerJob
    → Table
    → Table × Outcome × List TimerCommand
    → Type 0
Unfired b now sent job t r =
    ((r.0 ≡ t) × ((r.2 ≡ sent) ⊎ (r.2 ≡ sent ++ command job ∷ [])))
    ⊎ ((r.0
          ≡ update_row job.id
              (λ row. record row { status = TimerJobStatus.failed; updated_at = now 1 }) t)
        × (r.2 ≡ sent)
        × (is_refused b sent job ≡ true))

finish_timer_lem :
    (b : Backend) (now : ℕ → ℕ) (job : TimerJob) (t : Table)
    → let copy = update_row job.id (starting (now 0)) t in
      let (t', outcome) = finish_timer b now job t copy in
      ((outcome ≡ fired)
        × ((row : TimerJob) × (find_row job.id t ≡ some row)
            × (t' ≡ update_row job.id (executed now job (row.attempt_count + 1)) t)))
      ⊎ ((outcome ≢ fired) × (t' ≡ t))
unfolding finish_timer
finish_timer_lem b now job t =
    let copy = update_row job.id (starting (now 0)) t in
    let in_copy = find_row-update_row job.id job.id (starting (now 0)) t (λ r. refl) in
    elim (Option-cases (b.fault job.id Statement.read_count)) [
      | inr (e, bad) ↦ rw (finish_timer, bad) (inr (cc, refl))
      | inl counted ↦ elim (Option-cases (find_row job.id t)) [
        | inl missing ↦
            let gone : find_row job.id copy ≡ none =
              ground (arith, in_copy, missing, eq_iff job.id job.id) in
            rw (finish_timer, counted, gone) (inr (cc, refl))
        | inr (row, here) ↦
            let there : find_row job.id copy ≡ some (starting (now 0) row) =
              ground (arith, in_copy, here, eq_iff job.id job.id) in
            elim (Option-cases (b.fault job.id Statement.finish)) [
              | inr (e, bad) ↦ rw (finish_timer, counted, there, bad) (inr (cc, refl))
              | inl finished ↦ elim (Option-cases (b.fault job.id Statement.commit)) [
                | inr (e, bad) ↦ rw (finish_timer, counted, there, finished, bad) (inr (cc, refl))
                | inl committed ↦
                    rw (finish_timer, counted, there, finished, committed)
                      (inl (
                        refl,
                        (
                          row,
                          here,
                          update_row-update_row job.id (starting (now 0))
                              (finishing (now 1) (repeats (now 1) job (row.attempt_count + 1))) t
                              (λ r. refl),
                        ),
                      ))
              ]
            ]
      ]
    ]

-- What `markTimerJobFailed` may do.
mark_failed-cases :
    (b : Backend) (now : ℕ) (id : String) (t : Table)
    → (mark_timer_job_failed b now id t ≡ none)
      ⊎ ((mark_timer_job_failed b now id t ≡ some t)
          ⊎ (mark_timer_job_failed b now id t ≡ some (update_row id (failing now) t)))
unfolding mark_timer_job_failed
mark_failed-cases b now id t = ground arith

pub execute_timer-cases :
    (b : Backend) (now : ℕ → ℕ) (sent : List TimerCommand) (job : TimerJob) (t : Table)
    → let r = execute_timer b now sent job t in
      ((r.1 ≡ fired) × Ended b now sent job t r) ⊎ ((r.1 ≢ fired) × Unfired b now sent job t r)
unfolding execute_timer
execute_timer-cases b now sent job t =
    let ended = finish_timer_lem b now job t in
    elim (Option-cases (b.fault job.id Statement.begin)) [
      | inr (e, bad) ↦ rw (execute_timer, bad) (inr (cc, inl (refl, inl refl)))
      | inl begun ↦ elim (Option-cases (b.fault job.id Statement.mark_running)) [
        | inr (e, bad) ↦ rw (execute_timer, begun, bad) (inr (cc, inl (refl, inl refl)))
        | inl marked ↦ elim (Option-cases b.publisher) [
          | inl silent ↦
              rw (execute_timer, begun, marked, silent)
                (elim ended [
                  | inl (done, (row, here, stored)) ↦ inl (
                    done,
                    record {
                      row = row;
                      found = here;
                      stored = stored;
                      told = sym (append-nil sent);
                    },
                  )
                  | inr (not_done, same) ↦ inr (not_done, inl (same, inl refl))
                ])
          | inr (publish, heard) ↦ elim (Option-cases (publish sent (command job))) [
            | inr (e, bad) ↦ elim (mark_failed-cases b (now 1) job.id t) [
              | inl stuck ↦
                  rw (execute_timer, begun, marked, heard, bad, stuck)
                    (inr (cc, inl (refl, inl refl)))
              | inr (inl lost) ↦
                  rw (execute_timer, begun, marked, heard, bad, lost)
                    (inr (cc, inl (refl, inl refl)))
              | inr (inr stored) ↦
                  rw (execute_timer, begun, marked, heard, bad, stored)
                    (inr (cc, inr (refl, refl, refl)))
            ]
            | inl accepted ↦
                rw (execute_timer, begun, marked, heard, accepted)
                  (elim ended [
                    | inl (done, (row, here, stored)) ↦
                        inl (done, record { row = row; found = here; stored = stored; told = refl })
                    | inr (not_done, same) ↦ inr (not_done, inl (same, inr refl))
                  ])
          ]
        ]
      ]
    ]

-- The two rows that a completed execution may leave.
abbrev pub due_again : (ℕ → ℕ) → ℕ → TimerJob → TimerJob
due_again now interval row = record row {
  status = TimerJobStatus.pending;
  attempt_count = row.attempt_count + 1;
  last_executed_at = some (now 0);
  due_date = now 1 + interval;
  next_execution_at = some (now 1 + interval);
  updated_at = now 1 + interval;
}

abbrev pub over : (ℕ → ℕ) → TimerJob → TimerJob
over now row = record row {
  status = TimerJobStatus.completed;
  attempt_count = row.attempt_count + 1;
  last_executed_at = some (now 0);
  updated_at = now 1;
}

pub record Fired (b : Backend) (now : ℕ → ℕ) (sent : List TimerCommand) (job : TimerJob) (t : Table)
    (r : Table × Outcome × List TimerCommand) : Type 0 where
  pub row : TimerJob
  pub found : find_row job.id t ≡ some row
  pub repeated :
      (interval : ℕ)
      → job.repeat_interval ≡ some interval
      → row.attempt_count + 1 < job.max_attempts
      → r.0 ≡ update_row job.id (due_again now interval) t
  pub last :
      (job.repeat_interval ≡ none) ⊎ (job.max_attempts ≤ row.attempt_count + 1)
      → r.0 ≡ update_row job.id (over now) t
  pub told : r.2 ≡ sent ++ announced b job

ended-repeats :
    (now : ℕ → ℕ) (job : TimerJob) (id : String) (count : ℕ) (next : Option ℕ) (t : Table)
    → repeats (now 1) job count ≡ next
    → update_row id (executed now job count) t
      ≡ update_row id (λ row. finishing (now 1) next (starting (now 0) row)) t
ended-repeats now job id count next t h =
    ap (λ n. update_row id (λ row. finishing (now 1) n (starting (now 0) row)) t) h

-- An execution either ends as fired: the job's command is published, if there is a publisher, and
-- the row has one attempt more and is pending again at its next date, if the job repeats and has
-- attempts left, and completed else; or it changes nothing in the table, though the command may be
-- out, or, if the publisher refused the command, marks the row as failed.
pub execute_timer_lem :
    (b : Backend) (now : ℕ → ℕ) (sent : List TimerCommand) (job : TimerJob) (t : Table)
    → let r = execute_timer b now sent job t in
      ((r.1 ≡ fired) × Fired b now sent job t r) ⊎ ((r.1 ≢ fired) × Unfired b now sent job t r)
execute_timer_lem b now sent job t = elim (execute_timer-cases b now sent job t) [
  | inr unfired ↦ inr unfired
  | inl (done, e) ↦ inl (
    done,
    record {
      row = e.row;
      found = e.found;
      repeated = λ interval cycle left.
          e.stored
          ∙ ended-repeats now job job.id (e.row.attempt_count + 1) (some (now 1 + interval)) t
              (ground (arith, cycle, left));
      last = λ why.
          e.stored
          ∙ ended-repeats now job job.id (e.row.attempt_count + 1) none t (ground (arith, why));
      told = e.told;
    },
  )
]

-- An UPDATE that starts a row overwrites what a cancellation wrote.
starting-cancel :
    (b : Backend) (n now : ℕ) (id : String) (t : Table)
    → update_row id (starting now) (cancel_timer b n id t).1 ≡ update_row id (starting now) t
unfolding cancel_timer
starting-cancel b n now id t = elim (Option-cases (b.fault id Statement.cancel)) [
  | inr (e, bad) ↦ rw (cancel_timer, bad) refl
  | inl works ↦
      rw (cancel_timer, works)
        (update_row-update_row id _ (starting now) t (λ r. ground arith)
          ∙ ap (λ f. update_row id f t) (fun_ext λ r. ground arith))
]

finish_timer-fired :
    (b : Backend) (now : ℕ → ℕ) (job : TimerJob) (t u copy : Table)
    → (finish_timer b now job t copy).1 ≡ fired
    → finish_timer b now job u copy ≡ finish_timer b now job t copy
unfolding finish_timer
finish_timer-fired b now job t u copy h = ground (arith, h)

execute_timer-fired :
    (b : Backend) (now : ℕ → ℕ) (sent : List TimerCommand) (job : TimerJob) (t u : Table)
    → update_row job.id (starting (now 0)) u ≡ update_row job.id (starting (now 0)) t
    → (execute_timer b now sent job t).1 ≡ fired
    → execute_timer b now sent job u ≡ execute_timer b now sent job t
unfolding execute_timer
execute_timer-fired b now sent job t u same h =
    ground
      (arith, h, same, finish_timer-fired b now job t u (update_row job.id (starting (now 0)) t))

-- A timer that is cancelled after `processDueTimers` has read it, and before it is executed, is
-- executed as if it had not been: where the execution fires, its command is published and the table
-- it leaves is the same, so the cancellation is lost.
pub cancel_lost :
    (b : Backend) (now : ℕ → ℕ) (sent : List TimerCommand) (job : TimerJob) (t : Table)
    (b' : Backend) (cancelled_at : ℕ)
    → (execute_timer b now sent job t).1 ≡ fired
    → execute_timer b now sent job (cancel_timer b' cancelled_at job.id t).1
      ≡ execute_timer b now sent job t
cancel_lost b now sent job t b' cancelled_at h =
    execute_timer-fired b now sent job t (cancel_timer b' cancelled_at job.id t).1
      (starting-cancel b' cancelled_at (now 0) job.id t) h

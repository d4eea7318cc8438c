-- ===== src/Timers/Manager.antt =====
-- The execution of due timers: `executeTimer`, `processDueTimers` and `TimerFired` of
-- engine/internal/integration/nats/timer.go.
use proctssor.Prelude.{
  ℕ, ◌+◌, String, Bool, true, false, not, ◌&&◌, is_some, List, [], ◌∷◌, ◌++◌, Option, none, some,
  if◌then◌else◌, ltb,
}
use proctssor.Timers.{
  TimerJobStatus, TimerJob, Table, update_row, find_row, Statement, TimerError, TimerCommand,
  Backend, due_timers,
}

-- How an execution ends. `waits` is no end: a statement waits for a lock that is not released.
pub data Outcome : Type 0 where
  fired waits : Outcome
  stopped : TimerError → Outcome

abbrev pub command : TimerJob → TimerCommand
command job = record {
  instance_id = job.instance_id;
  token_id = job.token_id;
  node_id = job.node_id;
  timer_job_id = job.id;
  timer_type = job.timer_type;
  due_date = job.due_date;
}

-- The next date of a row that has been executed `count` times, if it repeats.
abbrev pub repeats : ℕ → TimerJob → ℕ → Option ℕ
repeats now job count = elim job.repeat_interval [
  | none ↦ none
  | some interval ↦ if ltb count job.max_attempts then some (now + interval) else none
]

abbrev pub starting : ℕ → TimerJob → TimerJob
starting now job = record job {
  status = TimerJobStatus.running;
  attempt_count = job.attempt_count + 1;
  last_executed_at = some now;
  updated_at = now;
}

-- The two UPDATE statements that end an execution, and those of `TimerFired`. The first sets
-- `updated_at` to the next date.
abbrev pub finishing : ℕ → Option ℕ → TimerJob → TimerJob
finishing now next job = elim next [
  | some due ↦ record job {
    status = TimerJobStatus.pending;
    due_date = due;
    next_execution_at = some due;
    updated_at = due;
  }
  | none ↦ record job { status = TimerJobStatus.completed; updated_at = now }
]

abbrev pub failing : ℕ → TimerJob → TimerJob
failing now job = record job { status = TimerJobStatus.failed; updated_at = now }

-- The open transaction that executes a job holds the lock of the row that it has updated.
abbrev pub is_locked : Backend → String → Table → Bool
is_locked b id t = is_some (find_row id t) && not (b.connection_lost id)

-- `markTimerJobFailed`, on another connection than the transaction's: it waits, `none`, for the row
-- while that is locked. Its error is dropped.
unfoldable pub mark_timer_job_failed : Backend → ℕ → String → Table → Option Table
mark_timer_job_failed b now id t =
    let marked : Table = elim (b.fault id Statement.mark_failed) [
      | some e ↦ t
      | none ↦ update_row id (failing now) t
    ] in
    if is_locked b id t then none else some marked

-- Behind the publication: the count is read in the transaction, the row is finished, and Commit puts
-- the copy in the table's place.
unfoldable pub finish_timer : Backend → (ℕ → ℕ) → TimerJob → Table → Table → Table × Outcome
finish_timer b now job t copy =
    let failed : Statement → String → Table × Outcome =
      λ s e. (t, stopped (TimerError.statement_failed s e)) in
    elim (b.fault job.id Statement.read_count) [
      | some e ↦ failed Statement.read_count e
      | none ↦ elim (find_row job.id copy) [
        | none ↦ (t, stopped (TimerError.no_rows job.id))
        | some row ↦ elim (b.fault job.id Statement.finish) [
          | some e ↦ failed Statement.finish e
          | none ↦ elim (b.fault job.id Statement.commit) [
            | some e ↦ failed Statement.commit e
            | none ↦ (
              update_row job.id (finishing (now 1) (repeats (now 1) job row.attempt_count)) copy,
              fired,
            )
          ]
        ]
      ]
    ]

-- `executeTimer` on a job that was read before. `sent` are the commands published so far.
unfoldable pub execute_timer :
    Backend → (ℕ → ℕ) → List TimerCommand → TimerJob → Table → Table × Outcome × List TimerCommand
execute_timer b now sent job t =
    let failed : Statement → String → Table × Outcome × List TimerCommand =
      λ s e. (t, stopped (TimerError.statement_failed s e), sent) in
    let copy = update_row job.id (starting (now 0)) t in
    let (t', outcome) = finish_timer b now job t copy in
    elim (b.fault job.id Statement.begin) [
      | some e ↦ failed Statement.begin e
      | none ↦ elim (b.fault job.id Statement.mark_running) [
        | some e ↦ failed Statement.mark_running e
        | none ↦ elim b.publisher [
          | none ↦ (t', outcome, sent)
          | some publish ↦ elim (publish sent (command job)) [
            | some e ↦ elim (mark_timer_job_failed b (now 1) job.id t) [
              | none ↦ (t, waits, sent)
              | some u ↦ (u, stopped (TimerError.not_published e), sent)
            ]
            | none ↦ (t', outcome, sent ++ command job ∷ [])
          ]
        ]
      ]
    ]

-- The loop of `processDueTimers`, which passes over a row that cannot be scanned, and where `now` also goes by the job: an error of a job is only printed. The flag tells whether the loop
-- came to its end.
unfoldable pub execute_timers :
    Backend
    → (String → ℕ → ℕ)
    → List TimerCommand
    → Table
    → Table
    → Table × Bool × List TimerCommand
execute_timers b now sent [] t = (t, true, sent)
execute_timers b now sent (job ∷ jobs) t =
    let (t', outcome, sent') = execute_timer b (now job.id) sent job t in
    elim (b.scans job) [
      | false ↦ execute_timers b now sent jobs t
      | true ↦ elim outcome [
        | waits ↦ (t', false, sent')
        | fired ↦ execute_timers b now sent' jobs t'
        | stopped e ↦ execute_timers b now sent' jobs t'
      ]
    ]

unfoldable pub process_due_timers :
    Backend
    → ℕ
    → (String → ℕ → ℕ)
    → List TimerCommand
    → Table
    → Option TimerError × Table × Bool × List TimerCommand
process_due_timers b db_now now sent t =
    let (t', ended, sent') = execute_timers b now sent (due_timers db_now t) t in
    elim (b.fault "" Statement.read) [
      | some e ↦ (some (TimerError.statement_failed Statement.read e), t, true, sent)
      | none ↦ (none, t', ended, sent')
    ]

unfoldable pub timer_fired : Backend → ℕ → String → Table → Option TimerError × Table
timer_fired b now id t = elim (b.fault id Statement.read) [
  | some e ↦ (some (TimerError.statement_failed Statement.read e), t)
  | none ↦ elim (find_row id t) [
    | none ↦ (some (TimerError.no_rows id), t)
    | some job ↦ elim (b.fault id Statement.finish) [
      | some e ↦ (some (TimerError.statement_failed Statement.finish e), t)
      | none ↦ (none, update_row id (finishing now (repeats now job job.attempt_count)) t)
    ]
  ]
]

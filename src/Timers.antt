-- ===== src/Timers.antt =====
-- The timer manager: engine/internal/integration/nats/timer.go. The table timer_jobs is a list of
-- rows, and each SQL statement of the source a function on it; a transaction works on a copy that
-- Commit puts in the table's place. Rows with the same due date come in the order of the table. Times
-- and durations are numbers and not negative; `now k` is what the k-th `time.Now` returns. A fault is
-- the error of a statement or of the publisher, both parameters. HandlerConfig is always `{}`.
pub mod Manager
pub mod Rows
pub mod Execute
pub mod Due
pub mod Order
pub mod Sound
pub mod Runs
use proctssor.Prelude.{
  ℕ, ◌+◌, String, ◌==◌, Bool, true, false, not, ◌&&◌, List, [], ◌∷◌, ◌++◌, Option, none, some,
  if◌then◌else◌, exists, select, take, ltb, leb, Result, ok, err,
}

pub data TimerType : Type 0 where
  date duration cycle iso8601 : TimerType

pub data TimerJobStatus : Type 0 where
  pending running completed failed cancelled : TimerJobStatus

pub record TimerJob : Type 0 where
  pub id : String
  pub instance_id : String
  pub node_id : String
  pub token_id : String
  pub timer_type : TimerType
  pub due_date : ℕ
  pub repeat_interval : Option ℕ
  pub max_attempts : ℕ
  pub attempt_count : ℕ
  pub status : TimerJobStatus
  pub last_executed_at : Option ℕ
  pub next_execution_at : Option ℕ
  pub created_at : ℕ
  pub updated_at : ℕ

abbrev pub Table : Type 0
Table = List TimerJob

abbrev pub is_pending : TimerJob → Bool
is_pending job = elim job.status [ TimerJobStatus.pending ↦ true | _ ↦ false ]

-- `status IN ('completed', 'failed', 'cancelled')`.
abbrev pub is_over : TimerJob → Bool
is_over job = elim job.status [
  | TimerJobStatus.pending ↦ false
  | TimerJobStatus.running ↦ false
  | _ ↦ true
]

-- `UPDATE ... WHERE id = $n`, and `SELECT ... WHERE id = $1`.
unfoldable pub update_row : String → (TimerJob → TimerJob) → Table → Table
update_row id f [] = []
update_row id f (job ∷ t) = (if job.id == id then f job else job) ∷ update_row id f t

unfoldable pub find_row : String → Table → Option TimerJob
find_row id [] = none
find_row id (job ∷ t) = if job.id == id then some job else find_row id t

-- The statements that may fail.
pub data Statement : Type 0 where
  insert begin mark_running mark_failed read_count finish commit cancel read clean : Statement

pub data TimerError : Type 0 where
  statement_failed : Statement → String → TimerError
  no_rows duplicate_key : String → TimerError
  not_a_duration not_published : String → TimerError

-- What PublishTimerCommand is called with; the variables repeat the job's fields.
pub record TimerCommand : Type 0 where
  pub instance_id : String
  pub token_id : String
  pub node_id : String
  pub timer_job_id : String
  pub timer_type : TimerType
  pub due_date : ℕ

-- The database's answer to a statement about a job, and the publisher's to a command, which sees
-- those before; `scans` tells whether a row can be scanned (a driver may give an interval as a text,
-- which is no `*time.Duration`), and `connection_lost` whether the connection of the transaction that
-- executes a job is lost behind its first UPDATE, so that the server rolls it back.
pub record Backend : Type 0 where
  pub fault : String → Statement → Option String
  pub publisher : Option (List TimerCommand → TimerCommand → Option String)
  pub scans : TimerJob → Bool
  pub connection_lost : String → Bool

-- `ScheduleTimer`; `fresh` is what `uuid.New` returns. Only a cycle has an interval.
unfoldable pub schedule_timer :
    Backend
    → String
    → (ℕ → ℕ)
    → String
    → String
    → String
    → TimerType
    → ℕ
    → Table
    → Result TimerError TimerJob × Table
schedule_timer b fresh now instance_id node_id token_id timer_type span t =
    let due = now 0 + span in
    let job : TimerJob = record {
      id = fresh;
      instance_id = instance_id;
      node_id = node_id;
      token_id = token_id;
      timer_type = timer_type;
      due_date = due;
      repeat_interval = elim timer_type [ TimerType.cycle ↦ some span | _ ↦ none ];
      max_attempts = 3;
      attempt_count = 0;
      status = TimerJobStatus.pending;
      last_executed_at = none;
      next_execution_at = some due;
      created_at = now 1;
      updated_at = now 2;
    } in
    let stored : Result TimerError TimerJob × Table =
      if exists (λ (r : TimerJob). r.id == fresh) t
      then (err (TimerError.duplicate_key fresh), t)
      else (ok job, t ++ job ∷ []) in
    elim (b.fault fresh Statement.insert) [
      | some e ↦ (err (TimerError.statement_failed Statement.insert e), t)
      | none ↦ stored
    ]

-- `ScheduleTimerISO8601`; `parse_duration` is `time.ParseDuration`.
unfoldable pub schedule_timer_iso8601 :
    (String → Option ℕ)
    → Backend
    → String
    → (ℕ → ℕ)
    → String
    → String
    → String
    → String
    → Table
    → Result TimerError TimerJob × Table
schedule_timer_iso8601 parse_duration b fresh now instance_id node_id token_id text t =
    elim (parse_duration text) [
      | none ↦ (err (TimerError.not_a_duration text), t)
      | some d ↦ schedule_timer b fresh now instance_id node_id token_id TimerType.iso8601 d t
    ]

-- `CancelTimer`: only a pending row changes, and it is no error if there is none.
unfoldable pub cancel_timer : Backend → ℕ → String → Table → Option TimerError × Table
cancel_timer b now id t = elim (b.fault id Statement.cancel) [
  | some e ↦ (some (TimerError.statement_failed Statement.cancel e), t)
  | none ↦ (
    none,
    update_row id
        (λ job.
          if is_pending job
          then record job { status = TimerJobStatus.cancelled; updated_at = now }
          else job)
        t,
  )
]

-- `ORDER BY due_date ASC`.
unfoldable pub insert_by_due : TimerJob → Table → Table
insert_by_due job [] = job ∷ []
insert_by_due job (r ∷ t) =
    let later = insert_by_due job t in
    if leb job.due_date r.due_date then job ∷ r ∷ t else r ∷ later

unfoldable pub order_by_due : Table → Table
order_by_due [] = []
order_by_due (job ∷ t) = insert_by_due job (order_by_due t)

-- The query of `processDueTimers`.
unfoldable pub due_timers : ℕ → Table → Table
due_timers db_now t =
    take 100 (order_by_due (select (λ job. is_pending job && leb job.due_date db_now) t))

-- `GetPendingTimers`.
unfoldable pub get_pending_timers : String → Table → Table
get_pending_timers instance_id t =
    order_by_due (select (λ job. job.instance_id == instance_id && is_pending job) t)

-- `CleanupTimers`.
unfoldable pub cleanup_timers : Backend → ℕ → ℕ → Table → Option TimerError × Table
cleanup_timers b db_now older_than t = elim (b.fault "" Statement.clean) [
  | some e ↦ (some (TimerError.statement_failed Statement.clean e), t)
  | none ↦ (none, select (λ job. not (is_over job && ltb (job.updated_at + older_than) db_now)) t)
]

-- ===== src/Timers/Sound.antt =====
-- What holds of the table of timers through any calls: engine/internal/integration/nats/timer.go.
use proctssor.Prelude.{
  ℕ, ◌+◌, ◌≤◌, ◌<◌, String, eq_iff, ◌≡◌, ◌≢◌, inl, inr, refl, true, false, ◌&&◌, List, [], ◌∷◌,
  select, leb, All, arith, Bool-cases,
}
use proctssor.Timers.{
  TimerJobStatus, TimerJob, Table, is_pending, find_row, update_row, TimerCommand, Backend,
  due_timers, order_by_due,
}
use proctssor.Timers.Manager.{failing, execute_timer, execute_timers}
use proctssor.Timers.Rows.{
  IsKeyed, IsRowOf, has_row, update_row-IsKeyed, update_row-All_at, find_row_self,
  find_row-update_row, select-IsKeyed, take-IsKeyed, order-IsKeyed,
}
use proctssor.Timers.Execute.{executed, execute_timer-cases}
use proctssor.Timers.Due.{order_by_due-All, take-All}

-- A row has no more attempts than it may, fewer while it is pending, and is never left running.
pub record IsSound (job : TimerJob) : Type 0 where
  pub within : job.attempt_count ≤ job.max_attempts
  pub left : is_pending job ≡ true → job.attempt_count < job.max_attempts
  pub settled : job.status ≢ TimerJobStatus.running

pub record IsSoundTable (t : Table) : Type 0 where
  pub rows : All IsSound t
  pub keyed : IsKeyed t

executed-IsSound :
    (now : ℕ → ℕ) (job : TimerJob)
    → IsSound job
    → is_pending job ≡ true
    → IsSound (executed now job (job.attempt_count + 1) job)
executed-IsSound now job s p = record {
  within = ground (arith, s.left p);
  left = λ q. ground (arith, s.left p, q);
  settled = λ e. ground (arith, e);
}

-- A change of one row that stays sound.
changed-IsSoundTable :
    (change : TimerJob → TimerJob) (job : TimerJob) (t : Table)
    → ((r : TimerJob) → (change r).id ≡ r.id)
    → IsSoundTable t
    → IsRowOf t job
    → IsSound (change job)
    → let t' = update_row job.id change t in
      IsSoundTable t' × ((r : TimerJob) → r.id ≢ job.id → IsRowOf t r → IsRowOf t' r)
changed-IsSoundTable change job t same_id s here sound = (
  record {
    rows = update_row-All_at IsSound job.id change t job s.keyed here sound s.rows;
    keyed = update_row-IsKeyed job.id change t same_id s.keyed;
  },
  λ r ne h.
      ground (arith, ne, h, eq_iff job.id r.id, find_row-update_row job.id r.id change t same_id),
)

-- What an execution does to the rows: sound rows stay sound, and other rows stay.
execute_timer-IsSoundTable :
    (b : Backend) (now : ℕ → ℕ) (sent : List TimerCommand) (job : TimerJob) (t : Table)
    → IsSoundTable t
    → IsSound job
    → is_pending job ≡ true
    → IsRowOf t job
    → let t' = (execute_timer b now sent job t).0 in
      IsSoundTable t' × ((r : TimerJob) → r.id ≢ job.id → IsRowOf t r → IsRowOf t' r)
execute_timer-IsSoundTable b now sent job t s sj p here =
    elim (execute_timer-cases b now sent job t) [
      | inr (not_fired, inl (same, told)) ↦ rw same (s, λ r ne h. h)
      | inr (not_fired, inr failed) ↦ rw (failed.0) (
          changed-IsSoundTable (failing (now 1)) job t (λ r. refl) s here
            (record { within = sj.within; left = λ e. cc; settled = λ e. cc }))
      | inl (done, f) ↦
          let change = executed now job (f.row.attempt_count + 1) in
          let same_row : f.row ≡ job = ground (arith, f.found, here) in
          rw f.stored (
            changed-IsSoundTable change job t (λ r. ground arith) s here
              (rw same_row (executed-IsSound now job sj p)))
    ]

-- The rows that a loop has still to execute: they are as they were read.
abbrev pub IsReady : Table → TimerJob → Type 0
IsReady t job = IsSound job × (is_pending job ≡ true) × IsRowOf t job

IsReady-after :
    (b : Backend) (now : ℕ → ℕ) (sent : List TimerCommand) (job : TimerJob) (t : Table)
    (jobs : Table)
    → IsSoundTable t
    → IsReady t job
    → has_row job.id jobs ≡ false
    → All (IsReady t) jobs
    → All (IsReady (execute_timer b now sent job t).0) jobs
unfolding find_row
IsReady-after b now sent job t [] s h out all = tt
IsReady-after b now sent job t (r ∷ jobs) s h out all =
    let kept = (execute_timer-IsSoundTable b now sent job t s h.0 h.1 h.2).1 in
    (
      (all.0.0, all.0.1, kept r (λ e. ground (arith, e, out, eq_iff r.id job.id)) all.0.2),
      IsReady-after b now sent job t jobs s h (ground (arith, out)) all.1,
    )

pub execute_timers-IsSoundTable :
    (b : Backend) (now : String → ℕ → ℕ) (sent : List TimerCommand) (jobs t : Table)
    → IsSoundTable t
    → IsKeyed jobs
    → All (IsReady t) jobs
    → IsSoundTable (execute_timers b now sent jobs t).0
unfolding execute_timers
execute_timers-IsSoundTable b now sent [] t s k all = s
execute_timers-IsSoundTable b now sent (job ∷ jobs) t s k all =
    let (t', outcome, sent') = execute_timer b (now job.id) sent job t in
    let s' = (execute_timer-IsSoundTable b (now job.id) sent job t s all.0.0 all.0.1 all.0.2).0 in
    let rest =
      execute_timers-IsSoundTable b now sent' jobs t' s' k.1
        (IsReady-after b (now job.id) sent job t jobs s all.0 k.0 all.1) in
    let skipped = execute_timers-IsSoundTable b now sent jobs t s k.1 all.1 in
    ground (arith, s', rest, skipped)

ready_rows :
    (t : Table) → All IsSound t → All (IsRowOf t) t → All (λ job. IsSound job × IsRowOf t job) t
ready_rows t s r = both t s r
  where
    both :
        (u : Table) → All IsSound u → All (IsRowOf t) u → All (λ job. IsSound job × IsRowOf t job) u
    both [] s r = tt
    both (job ∷ u) s r = ((s.0, r.0), both u s.1 r.1)

-- The rows that the query selects are pending.
select-IsReady :
    (db_now : ℕ) (t u : Table)
    → All (λ job. IsSound job × IsRowOf t job) u
    → All (IsReady t) (select (λ job. is_pending job && leb job.due_date db_now) u)
select-IsReady db_now t [] h = tt
select-IsReady db_now t (job ∷ u) h = elim (Bool-cases (is_pending job)) [
  | inr idle ↦ rw idle (select-IsReady db_now t u h.1)
  | inl waiting ↦ elim (Bool-cases (leb job.due_date db_now)) [
    | inr early ↦ rw (waiting, early) (select-IsReady db_now t u h.1)
    | inl due ↦ rw (waiting, due) ((h.0.0, waiting, h.0.1), select-IsReady db_now t u h.1)
  ]
]

pub due_timers-IsReady :
    (db_now : ℕ) (t : Table) → IsSoundTable t → All (IsReady t) (due_timers db_now t)
unfolding due_timers
due_timers-IsReady db_now t s =
    let ready = λ (job : TimerJob). is_pending job && leb job.due_date db_now in
    take-All (IsReady t) 100 (order_by_due (select ready t)) (
      order_by_due-All (IsReady t) (select ready t)
        (select-IsReady db_now t t (ready_rows t s.rows (find_row_self t s.keyed))))

pub due_timers-IsKeyed : (db_now : ℕ) (t : Table) → IsKeyed t → IsKeyed (due_timers db_now t)
unfolding due_timers
due_timers-IsKeyed db_now t k =
    take-IsKeyed 100 _
      (order-IsKeyed _ (select-IsKeyed (λ job. is_pending job && leb job.due_date db_now) t k))

-- ===== src/Timers/Order.antt =====
-- Which timers a tick executes, and in which order: `processDueTimers` of
-- engine/internal/integration/nats/timer.go.
use proctssor.Prelude.{ℕ, ◌≤◌, ◌==◌, ◌≡◌, ◌⊎◌, Bool, true, ◌&&◌, [], ◌∷◌, exists, length, leb, All}
use proctssor.Timers.{TimerJob, Table, is_pending}

-- No timer is due before the one in front of it.
abbrev pub IsAscending : Table → Type 0
IsAscending [] = Unit
IsAscending (job ∷ t) = All (λ r. job.due_date ≤ r.due_date) t × IsAscending t

-- A row is among the timers, or they are as many as may be and none is due after it.
abbrev pub IsServed : ℕ → Table → TimerJob → Type 0
IsServed n jobs row =
    (exists (λ job. job.id == row.id) jobs ≡ true)
    ⊎ ((length jobs ≡ n) × All (λ job. job.due_date ≤ row.due_date) jobs)

-- A pending timer whose date has come.
abbrev pub is_due : ℕ → TimerJob → Bool
is_due db_now job = is_pending job && leb job.due_date db_now

-- The first hundred due timers of a table by their due dates.
pub record IsFirstDue (db_now : ℕ) (t jobs : Table) : Type 0 where
  pub ascending : IsAscending jobs
  pub limited : length jobs ≤ 100
  pub due : All (λ job. is_due db_now job ≡ true) jobs
  pub served : All (λ row. is_due db_now row ≡ true → IsServed 100 jobs row) t

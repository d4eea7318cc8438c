-- ===== src/Tests/Timers.antt =====
-- A table with a cycle that is due and a timer that was cancelled.
use proctssor.Prelude.{ℕ, ◌+◌, String, ◌≡◌, ◌≢◌, ◌⊎◌, refl, true, false, [], ◌∷◌, none, some, arith}
use proctssor.Timers.{TimerType, TimerJobStatus, TimerJob, Table, update_row, find_row, Backend}
use proctssor.Timers.Manager.{fired, execute_timer, mark_timer_job_failed, finish_timer}
use proctssor.Timers.Execute.{Fired, Unfired, execute_timer_lem}
use proctssor.Timers.Sound.{IsSoundTable}
use proctssor.Timers.Runs.{cancels, process, cleanup, run, run-IsSoundTable}

abbrev job : String → TimerJobStatus → TimerJob
job id status = record {
  id = id;
  instance_id = "order";
  node_id = "remind";
  token_id = "t";
  timer_type = TimerType.cycle;
  due_date = 5;
  repeat_interval = some 10;
  max_attempts = 3;
  attempt_count = 1;
  status = status;
  last_executed_at = none;
  next_execution_at = some 5;
  created_at = 1;
  updated_at = 1;
}

abbrev weekly : TimerJob
weekly = job "weekly" TimerJobStatus.pending

abbrev table : Table
table = weekly ∷ job "once" TimerJobStatus.cancelled ∷ []

abbrev calm : Backend
calm = record {
  fault = λ id s. none;
  publisher = some (λ sent c. none);
  scans = λ r. true;
  connection_lost = λ id. false;
}

-- The publisher is not connected.
abbrev cut_off : Backend
cut_off = record {
  fault = λ id s. none;
  publisher = some (λ sent c. some "no responders");
  scans = λ r. true;
  connection_lost = λ id. false;
}

abbrev clock : ℕ → ℕ
clock k = 7 + k

execute_timer_lem_example :
    let r = execute_timer calm clock [] weekly table in
    ((r.1 ≡ fired) × Fired calm clock [] weekly table r)
    ⊎ ((r.1 ≢ fired) × Unfired calm clock [] weekly table r)
execute_timer_lem_example = execute_timer_lem calm clock [] weekly table

table-IsSoundTable : IsSoundTable table
unfolding find_row
table-IsSoundTable = record {
  rows = (
    record { within = omega arith; left = λ _. omega arith; settled = λ e. cc },
    (record { within = omega arith; left = λ e. cc; settled = λ e. cc }, tt),
  );
  keyed = (refl, (refl, tt));
}

-- A timer is stored as failed where the connection of its transaction is lost.
abbrev torn : Backend
torn = record cut_off { connection_lost = λ id. true }

fails :
    (execute_timer torn clock [] weekly table).0
    ≡ record weekly { status = TimerJobStatus.failed; updated_at = 8 }
      ∷ job "once" TimerJobStatus.cancelled
      ∷ []
unfolding execute_timer mark_timer_job_failed finish_timer update_row find_row
fails = refl

run-IsSoundTable_example :
    IsSoundTable
      (run
        ((calm, process 6 (λ id. clock))
          ∷ (cut_off, cancels 8 "weekly")
          ∷ (calm, cleanup 20 5)
          ∷ [])
        []
        table).0
run-IsSoundTable_example =
    run-IsSoundTable
      ((calm, process 6 (λ id. clock)) ∷ (cut_off, cancels 8 "weekly") ∷ (calm, cleanup 20 5) ∷ [])
      [] table table-IsSoundTable

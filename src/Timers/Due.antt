-- ===== src/Timers/Due.antt =====
-- What a tick of the timer manager executes: `processDueTimers` of
-- engine/internal/integration/nats/timer.go.
use proctssor.Prelude.{
  ℕ, ◌+◌, String, ◌==◌, eq_iff, ◌≡◌, inl, inr, refl, ◌∙◌, ap, Bool, true, false, ◌&&◌, List, [],
  ◌∷◌, ◌++◌, map, Option, none, some, is_some, exists, select, take, leb, zero, suc, All, arith,
  Option-cases, Bool-cases,
}
use mathlib.Core.List.{append-nil, append_assoc}
use proctssor.Timers.{
  TimerJob, Table, is_pending, update_row, find_row, Statement, TimerCommand, Backend, due_timers,
  insert_by_due, order_by_due,
}
use proctssor.Timers.Manager.{
  fired, command, starting, finishing, repeats, finish_timer, execute_timer, execute_timers,
  process_due_timers,
}
use proctssor.Timers.Rows.{find_row-update_row, update_row-update_row}
use proctssor.Timers.Execute.{executed}

module _ {κ} (P : TimerJob → Type κ) where
  pub select-All : (p : TimerJob → Bool) (t : Table) → All P t → All P (select p t)
  select-All p [] h = tt
  select-All p (job ∷ t) h = ground (arith, h, select-All p t h.1)

  pub insert_by_due-All :
      (job : TimerJob) (t : Table) → P job → All P t → All P (insert_by_due job t)
  unfolding insert_by_due
  insert_by_due-All job [] hj h = (hj, tt)
  insert_by_due-All job (r ∷ t) hj h = ground (arith, hj, h, insert_by_due-All job t hj h.1)

  pub order_by_due-All : (t : Table) → All P t → All P (order_by_due t)
  unfolding order_by_due
  order_by_due-All [] h = tt
  order_by_due-All (job ∷ t) h = insert_by_due-All job (order_by_due t) h.0 (order_by_due-All t h.1)

  pub take-All : (n : ℕ) (t : Table) → All P t → All P (take n t)
  take-All zero t h = tt
  take-All (suc n) [] h = tt
  take-All (suc n) (job ∷ t) h = (h.0, take-All n t h.1)

abbrev IsFound : Table → TimerJob → Type 0
IsFound t job = is_some (find_row job.id t) ≡ true

IsFound-cons : (job : TimerJob) (t u : Table) → All (IsFound t) u → All (IsFound (job ∷ t)) u
unfolding find_row
IsFound-cons job t [] h = tt
IsFound-cons job t (r ∷ u) h = (ground (arith, h.0), IsFound-cons job t u h.1)

IsFound-self : (t : Table) → All (IsFound t) t
unfolding find_row
IsFound-self [] = tt
IsFound-self (job ∷ t) =
    (ground (arith, eq_iff job.id job.id), IsFound-cons job t t (IsFound-self t))

IsFound-due : (db_now : ℕ) (t : Table) → All (IsFound t) (due_timers db_now t)
unfolding due_timers
IsFound-due db_now t =
    let ready = λ (job : TimerJob). is_pending job && leb job.due_date db_now in
    take-All (IsFound t) 100 (order_by_due (select ready t)) (
      order_by_due-All (IsFound t) (select ready t)
        (select-All (IsFound t) ready t (IsFound-self t)))

IsFound-update :
    (id : String) (f : TimerJob → TimerJob) (t u : Table)
    → ((job : TimerJob) → (f job).id ≡ job.id)
    → All (IsFound t) u
    → All (IsFound (update_row id f t)) u
IsFound-update id f t [] same h = tt
IsFound-update id f t (r ∷ u) same h =
    (ground (arith, h.0, find_row-update_row id r.id f t same), IsFound-update id f t u same h.1)

executed-id :
    (now : ℕ → ℕ) (job : TimerJob) (count : ℕ) (r : TimerJob) → (executed now job count r).id ≡ r.id
executed-id now job count r = ground arith

execute_timers-fired :
    (b : Backend) (now : String → ℕ → ℕ) (sent sent' : List TimerCommand) (job : TimerJob)
    (jobs t t' : Table)
    → b.scans job ≡ true
    → execute_timer b (now job.id) sent job t ≡ (t', fired, sent')
    → execute_timers b now sent (job ∷ jobs) t ≡ execute_timers b now sent' jobs t'
unfolding execute_timers
execute_timers-fired b now sent sent' job jobs t t' scanned e = ground (arith, scanned, e)

execute_timers-unscanned :
    (b : Backend) (now : String → ℕ → ℕ) (sent : List TimerCommand) (job : TimerJob)
    (jobs t : Table)
    → b.scans job ≡ false
    → execute_timers b now sent (job ∷ jobs) t ≡ execute_timers b now sent jobs t
unfolding execute_timers
execute_timers-unscanned b now sent job jobs t h = ground (arith, h)

-- No statement fails, and the publisher takes every command.
pub record IsWorking (b : Backend) (publish : List TimerCommand → TimerCommand → Option String)
    : Type 0 where
  pub works : (id : String) (s : Statement) → b.fault id s ≡ none
  pub heard : b.publisher ≡ some publish
  pub accepts : (sent : List TimerCommand) (c : TimerCommand) → publish sent c ≡ none

module _ (b : Backend) (publish : List TimerCommand → TimerCommand → Option String)
    (w : IsWorking b publish) where
  finish_timer-working :
      (now : ℕ → ℕ) (job row : TimerJob) (t : Table)
      → find_row job.id t ≡ some row
      → finish_timer b now job t (update_row job.id (starting (now 0)) t)
        ≡ (update_row job.id (executed now job (row.attempt_count + 1)) t, fired)
  unfolding finish_timer
  finish_timer-working now job row t here =
      let there : find_row job.id (update_row job.id (starting (now 0)) t)
          ≡ some (starting (now 0) row) =
        ground (
          arith,
          here,
          eq_iff job.id job.id,
          find_row-update_row job.id job.id (starting (now 0)) t (λ r. refl),
        ) in
      let last = finishing (now 1) (repeats (now 1) job (row.attempt_count + 1)) in
      rw
        (
          finish_timer,
          w.works job.id Statement.read_count,
          there,
          w.works job.id Statement.finish,
          w.works job.id Statement.commit,
        )
        (ap (λ (u : Table). (u, fired))
          (update_row-update_row job.id (starting (now 0)) last t (λ r. refl)))

  execute_timer-working :
      (now : ℕ → ℕ) (sent : List TimerCommand) (job row : TimerJob) (t : Table)
      → find_row job.id t ≡ some row
      → execute_timer b now sent job t ≡ (
        update_row job.id (executed now job (row.attempt_count + 1)) t,
        fired,
        sent ++ command job ∷ [],
      )
  unfolding execute_timer
  execute_timer-working now sent job row t here =
      rw
        (
          execute_timer,
          w.works job.id Statement.begin,
          w.works job.id Statement.mark_running,
          w.heard,
          w.accepts sent (command job),
          finish_timer-working now job row t here,
        )
        refl

  execute_timers-working :
      (now : String → ℕ → ℕ) (sent : List TimerCommand) (jobs t : Table)
      → All (IsFound t) jobs
      → (t' : Table) × (execute_timers b now sent jobs t
          ≡ (t', true, sent ++ map command (select b.scans jobs)))
        × ((j : String) → exists (λ job. job.id == j) jobs ≡ false → find_row j t' ≡ find_row j t)
  unfolding execute_timers
  execute_timers-working now sent [] t h = (t, ground (arith, append-nil sent), λ j out. refl)
  execute_timers-working now sent (job ∷ jobs) t h = elim (Bool-cases (b.scans job)) [
    | inr unread ↦
        let (t', done, kept) = execute_timers-working now sent jobs t h.1 in
        (
          t',
          execute_timers-unscanned b now sent job jobs t unread ∙ rw (unread) done,
          λ j out. kept j (ground (arith, out)),
        )
    | inl scanned ↦ elim (Option-cases (find_row job.id t)) [
      | inl gone ↦ absurd (ground (arith, gone, h.0))
      | inr (row, here) ↦
          let change = executed (now job.id) job (row.attempt_count + 1) in
          let same_id = executed-id (now job.id) job (row.attempt_count + 1) in
          let t1 = update_row job.id change t in
          let sent1 = sent ++ command job ∷ [] in
          let (t', done, kept) =
            execute_timers-working now sent1 jobs t1
              (IsFound-update job.id change t jobs same_id h.1) in
          let told : sent1 ++ map command (select b.scans jobs)
              ≡ sent ++ map command (select b.scans (job ∷ jobs)) =
            append_assoc sent (command job ∷ []) (map command (select b.scans jobs))
            ∙ rw (scanned) refl in
          (
            t',
            execute_timers-fired b now sent sent1 job jobs t t1 scanned
                  (execute_timer-working (now job.id) sent job row t here)
                ∙ (done ∙ ap (λ l. (t', true, l)) told),
            λ j out. ground (arith, out, kept j, find_row-update_row job.id j change t same_id),
          )
    ]
  ]

  pub process_due_timers-due :
      (db_now : ℕ) (now : String → ℕ → ℕ) (sent : List TimerCommand) (t : Table)
      → (t' : Table) × (process_due_timers b db_now now sent t
          ≡ (none, t', true, sent ++ map command (select b.scans (due_timers db_now t))))
        × ((j : String)
            → exists (λ job. job.id == j) (due_timers db_now t) ≡ false
            → find_row j t' ≡ find_row j t)
  unfolding process_due_timers
  process_due_timers-due db_now now sent t =
      let (t', done, kept) =
        execute_timers-working now sent (due_timers db_now t) t (IsFound-due db_now t) in
      (t', rw (process_due_timers, w.works "" Statement.read, done) refl, kept)

-- ===== src/Instance/Tasks/Listed.antt =====
-- What the lists of tasks show: `GetTasks` and `GetTaskHistory` of
-- engine/internal/integration/postgres/repository.go.
use proctssor.Prelude.{
  ℕ, ◌≤◌, ℤ, pos, negsuc, String, ◌==◌, eq_iff, ◌≡◌, ◌≢◌, refl, subst, sym, ap, ◌∙◌, true, false,
  ◌&&◌, List, [], ◌∷◌, map, length, select, All, take, take-All, length-take, select-All,
  select_passes, newest_first, newest_first-All, IsDescending, newest_first-IsDescending,
  take-IsDescending, Map, lookup, Option, none, some, is_some, Option-cases, Bool-cases, Result, ok,
  err, inl, inr, arith,
}
use proctssor.Token.{Variables}
use proctssor.Instance.Store.{
  ProcessInstanceStatus, pending, running, completed, failed, terminated, suspended, error, waiting,
  ProcessInstance, Fault,
}
use proctssor.Instance.Tasks.{
  TaskRow, Tasks, UserTask, TaskFilter, status_text, is_active, is_wanted, without_end, scan_task,
  scan_tasks, get_tasks, end_of, get_task_history, update_task, write_task, unclaim_task,
}

inactive : (status : ProcessInstanceStatus) → (status_text status == "active") ≡ false
inactive pending = refl
inactive running = refl
inactive completed = refl
inactive failed = refl
inactive terminated = refl
inactive suspended = refl
inactive error = refl
inactive waiting = refl

is_active-false :
    (instances : Map ProcessInstance) (row : TaskRow) → is_active instances row ≡ false
is_active-false instances row = elim (Option-cases (lookup row.instance_id instances)) [
  | inl gone ↦ rw (is_active, gone) refl
  | inr (i, found) ↦ rw (is_active, found) (inactive i.status)
]

none_selected :
    (instances : Map ProcessInstance) (filter : TaskFilter) (rows : Tasks)
    → select (λ row. is_active instances row && is_wanted filter row) rows ≡ []
none_selected instances filter [] = refl
none_selected instances filter (row ∷ rows) =
    rw (is_active-false instances row) (none_selected instances filter rows)

-- The list of open tasks is empty, whatever tasks and instances there are and whatever it is asked
-- for: it joins the instances whose status is `active`, and the engine knows no such status.
pub get_tasks_lem :
    (unmarshal : String → Option Variables) (filter : TaskFilter) (instances : Map ProcessInstance)
    (rows : Tasks)
    → get_tasks unmarshal none filter instances rows ≡ ok []
unfolding get_tasks newest_first scan_tasks
get_tasks_lem unmarshal filter instances rows =
    ap
      (λ found. ok (
        map without_end
          (scan_tasks unmarshal (take 100 (newest_first (λ row. row.created_at) found)))))
      (none_selected instances filter rows)

abbrev pub ended : UserTask → ℕ
ended task = elim task.completed_at [ none ↦ 0 | some t ↦ t ]

module _ (unmarshal : String → Option Variables) where
  scan_tasks-nil : scan_tasks unmarshal [] ≡ []
  unfolding scan_tasks
  scan_tasks-nil = refl

  scan_tasks-skips :
      (row : TaskRow) (rows : Tasks)
      → scan_task unmarshal row ≡ none
      → scan_tasks unmarshal (row ∷ rows) ≡ scan_tasks unmarshal rows
  unfolding scan_tasks
  scan_tasks-skips row rows h = ground (arith, h)

  scan_tasks-takes :
      (row : TaskRow) (rows : Tasks) (task : UserTask)
      → scan_task unmarshal row ≡ some task
      → scan_tasks unmarshal (row ∷ rows) ≡ task ∷ scan_tasks unmarshal rows
  unfolding scan_tasks
  scan_tasks-takes row rows task h = ground (arith, h)

  scan_tasks-All :
      (P : TaskRow → Type 0) (Q : UserTask → Type 0)
      → ((row : TaskRow) (task : UserTask) → scan_task unmarshal row ≡ some task → P row → Q task)
      → (rows : Tasks) → All P rows
      → All Q (scan_tasks unmarshal rows)
  scan_tasks-All P Q kept [] h = subst (All Q) (sym scan_tasks-nil) tt
  scan_tasks-All P Q kept (row ∷ rows) h = elim (Option-cases (scan_task unmarshal row)) [
    | inl gone ↦
        subst (All Q) (sym (scan_tasks-skips row rows gone)) (scan_tasks-All P Q kept rows h.1)
    | inr (task, found) ↦
        subst (All Q) (sym (scan_tasks-takes row rows task found))
          (kept row task found h.0, scan_tasks-All P Q kept rows h.1)
  ]

  scan_task-completed_at :
      (row : TaskRow) (task : UserTask)
      → scan_task unmarshal row ≡ some task
      → (task.completed_at ≡ row.completed_at)
        × ((task.id ≡ row.id) × (is_some row.assignee ≡ true))
  unfolding scan_task
  scan_task-completed_at row task h = ground (arith, h)

  ended-le :
      (r : TaskRow) (t : UserTask) (row : TaskRow) (task : UserTask)
      → scan_task unmarshal r ≡ some t
      → scan_task unmarshal row ≡ some task
      → end_of r ≤ end_of row
      → ended t ≤ ended task
  ended-le r t row task scanned found before =
      rw ((scan_task-completed_at r t scanned).0, (scan_task-completed_at row task found).0) before

  scan_tasks-IsDescending :
      (rows : Tasks) → IsDescending end_of rows → IsDescending ended (scan_tasks unmarshal rows)
  scan_tasks-IsDescending [] h = subst (IsDescending ended) (sym scan_tasks-nil) tt
  scan_tasks-IsDescending (row ∷ rows) h = elim (Option-cases (scan_task unmarshal row)) [
    | inl gone ↦
        subst (IsDescending ended) (sym (scan_tasks-skips row rows gone))
          (scan_tasks-IsDescending rows h.1)
    | inr (task, found) ↦ subst (IsDescending ended) (sym (scan_tasks-takes row rows task found)) (
      scan_tasks-All (λ r. end_of r ≤ end_of row) (λ t. ended t ≤ ended task)
          (λ r t scanned before. ended-le r t row task scanned found before) rows h.0,
      scan_tasks-IsDescending rows h.1,
    )
  ]

  length-scan_tasks : (rows : Tasks) → length (scan_tasks unmarshal rows) ≤ length rows
  unfolding scan_tasks
  length-scan_tasks [] = omega arith
  length-scan_tasks (row ∷ rows) = ground (arith, length-scan_tasks rows)

-- A list of tasks as the history promises it.
pub record IsHistory (n : ℕ) (tasks : List UserTask) : Type 0 where
  pub limited : length tasks ≤ n
  pub latest_first : IsDescending ended tasks
  pub over : All (λ task. is_some task.completed_at ≡ true) tasks

-- With a database that works, the history answers every limit that is not negative, with at most so
-- many tasks, all of them completed, the last completed first.
pub get_task_history_lem :
    (unmarshal : String → Option Variables) (n : ℕ) (rows : Tasks)
    → (tasks : List UserTask) × ((get_task_history unmarshal none (pos n) rows ≡ ok tasks)
        × IsHistory n tasks)
unfolding get_task_history
get_task_history_lem unmarshal n rows =
    let found : Tasks = select (λ row. is_some row.completed_at) rows in
    let sorted : Tasks = take n (newest_first end_of found) in
    let history : IsHistory n (scan_tasks unmarshal sorted) = record {
      limited =
          omega
            (arith, length-scan_tasks unmarshal sorted, length-take n (newest_first end_of found));
      latest_first =
          scan_tasks-IsDescending unmarshal sorted
            (take-IsDescending end_of n _ (newest_first-IsDescending end_of found));
      over =
          scan_tasks-All unmarshal (λ row. is_some row.completed_at ≡ true)
            (λ task. is_some task.completed_at ≡ true)
            (λ row task scanned h.
              ap is_some (scan_task-completed_at unmarshal row task scanned).0 ∙ h)
            sorted
            (take-All _ n _ (
              newest_first-All end_of _ found
                (select_passes (λ row. is_some row.completed_at) rows)));
    } in
    (scan_tasks unmarshal sorted, (refl, history))

-- The unassigned tasks with an identifier, and the shown tasks with other ones.
abbrev pub IsFree : String → TaskRow → Type 0
IsFree id row = row.id ≡ id → row.assignee ≡ none

abbrev pub IsOther : String → UserTask → Type 0
IsOther id task = task.id ≢ id

unclaimed :
    (now : ℕ) (id : String) (rows : Tasks) → All (IsFree id) (unclaim_task none now id rows).1
unfolding unclaim_task write_task update_task
unclaimed now id [] = tt
unclaimed now id (row ∷ rows) = elim (Bool-cases (row.id == id)) [
  | inl here ↦ rw (here) ((λ same. refl), unclaimed now id rows)
  | inr other ↦
      rw (other) ((λ same. ground (arith, eq_iff row.id id, same, other)), unclaimed now id rows)
]

scan_task-IsOther :
    (unmarshal : String → Option Variables) (id : String) (row : TaskRow) (task : UserTask)
    → scan_task unmarshal row ≡ some task
    → IsFree id row
    → IsOther id task
scan_task-IsOther unmarshal id row task scanned free = λ same.
    let shown = scan_task-completed_at unmarshal row task scanned in
    ground (arith, shown, free (sym shown.1.0 ∙ same))

-- The tasks of a list, if it is given.
abbrev pub AllListed : (UserTask → Type 0) → Result String (List UserTask) → Type 0
AllListed P (ok tasks) = All P tasks
AllListed P (err e) = Unit

-- A task that was given back is in no history, also if it is completed: a row without an assignee
-- cannot be scanned and is passed over.
pub unclaim_task-get_task_history :
    (unmarshal : String → Option Variables) (fault : Fault) (limit : ℤ) (now : ℕ) (id : String)
    (rows : Tasks)
    → AllListed
        (IsOther id)
        (get_task_history unmarshal fault limit (unclaim_task none now id rows).1)
unfolding get_task_history
unclaim_task-get_task_history unmarshal none (pos n) now id rows =
    scan_tasks-All unmarshal (IsFree id) (IsOther id)
      (λ row task scanned free. scan_task-IsOther unmarshal id row task scanned free) _
      (take-All _ n _ (
        newest_first-All end_of _ _
          (select-All (IsFree id) (λ row. is_some row.completed_at) _ (unclaimed now id rows))))
unclaim_task-get_task_history unmarshal none (negsuc n) now id rows = tt
unclaim_task-get_task_history unmarshal (some e) limit now id rows = tt

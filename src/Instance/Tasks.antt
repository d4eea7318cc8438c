-- ===== src/Instance/Tasks.antt =====
-- The table of user tasks, and what the table of instances is asked for:
-- engine/internal/integration/postgres/repository.go. The columns are those that the statements name;
-- all but the assignee and the times are taken to be set. JSON decoding is a parameter.
pub mod Assigned
pub mod Listed
use Prim.Native.String.{◌++◌ as text_append}
use proctssor.Prelude.{
  ℕ, suc, ℤ, pos, negsuc, String, ◌==◌, Bool, true, false, ◌&&◌, List, [], ◌∷◌, map, select, take,
  drop, newest_first, Map, lookup, Option, none, some, is_some, Result, ok, err, if◌then◌else◌, leb,
}
use proctssor.Token.{Variables}
use proctssor.Instance.Store.{
  ProcessInstanceStatus, pending, running, completed, failed, terminated, suspended, error, waiting,
  ProcessInstance, Fault,
}

pub record TaskRow : Type 0 where
  pub id : String
  pub name : String
  pub instance_id : String
  pub process_definition_id : String
  pub assignee : Option String
  pub status : String
  pub created_at : ℕ
  pub completed_at : Option ℕ
  pub due_date : Option ℕ
  pub updated_at : ℕ
  pub variables : String

abbrev pub Tasks : Type 0
Tasks = List TaskRow

pub record UserTask : Type 0 where
  pub id : String
  pub name : String
  pub instance_id : String
  pub process_def_id : String
  pub assignee : String
  pub created_at : ℕ
  pub completed_at : Option ℕ
  pub due_date : Option ℕ
  pub variables : Variables

pub record TaskFilter : Type 0 where
  pub assignee : String
  pub instance_id : String
  pub status : String

-- The text of a status in its column.
abbrev pub status_text : ProcessInstanceStatus → String
status_text pending = "pending"
status_text running = "running"
status_text completed = "completed"
status_text failed = "failed"
status_text terminated = "terminated"
status_text suspended = "suspended"
status_text error = "error"
status_text waiting = "waiting"

-- A condition of a query that an empty text leaves out.
abbrev pub matches : String → String → Bool
matches wanted found = if wanted == "" then true else found == wanted

abbrev pub is_assigned_to : String → TaskRow → Bool
is_assigned_to wanted row =
    if wanted == "" then true else elim row.assignee [ none ↦ false | some user ↦ user == wanted ]

abbrev pub is_active : Map ProcessInstance → TaskRow → Bool
is_active instances row = elim (lookup row.instance_id instances) [
  | none ↦ false
  | some i ↦ status_text i.status == "active"
]

abbrev pub is_wanted : TaskFilter → TaskRow → Bool
is_wanted filter row =
    is_assigned_to filter.assignee row
    && matches filter.instance_id row.instance_id
    && matches filter.status row.status

-- A scan of a row: it fails on a task that is assigned to nobody, whose column is NULL.
unfoldable pub scan_task : (String → Option Variables) → TaskRow → Option UserTask
scan_task unmarshal row = elim row.assignee [
  | none ↦ none
  | some user ↦ some (record {
    id = row.id;
    name = row.name;
    instance_id = row.instance_id;
    process_def_id = row.process_definition_id;
    assignee = user;
    created_at = row.created_at;
    completed_at = row.completed_at;
    due_date = row.due_date;
    variables = elim (unmarshal row.variables) [ none ↦ [] | some vars ↦ vars ];
  })
]

-- A row that cannot be scanned is passed over.
unfoldable pub scan_tasks : (String → Option Variables) → Tasks → List UserTask
scan_tasks unmarshal [] = []
scan_tasks unmarshal (row ∷ rows) = elim (scan_task unmarshal row) [
  | none ↦ scan_tasks unmarshal rows
  | some task ↦ task ∷ scan_tasks unmarshal rows
]

abbrev pub without_end : UserTask → UserTask
without_end task = record task { completed_at = none }

-- `GetTasks`: its query has no `completed_at`.
unfoldable pub get_tasks :
    (String → Option Variables)
    → Fault
    → TaskFilter
    → Map ProcessInstance
    → Tasks
    → Result String (List UserTask)
get_tasks unmarshal fault filter instances rows = elim fault [
  | some e ↦ err (text_append "failed to fetch tasks: " e)
  | none ↦
      let found = select (λ row. is_active instances row && is_wanted filter row) rows in
      ok (
        map without_end
          (scan_tasks unmarshal (take 100 (newest_first (λ row. row.created_at) found))))
]

abbrev pub end_of : TaskRow → ℕ
end_of row = elim row.completed_at [ none ↦ 0 | some t ↦ t ]

-- `GetTaskHistory`: the database refuses a negative limit.
unfoldable pub get_task_history :
    (String → Option Variables) → Fault → ℤ → Tasks → Result String (List UserTask)
get_task_history unmarshal fault limit rows =
    let ended = newest_first end_of (select (λ row. is_some row.completed_at) rows) in
    elim fault [
      | some e ↦ err (text_append "failed to fetch task history: " e)
      | none ↦ elim limit [
        | negsuc n ↦ err "failed to fetch task history: LIMIT must not be negative"
        | pos n ↦ ok (scan_tasks unmarshal (take n ended))
      ]
    ]

-- `UPDATE user_tasks … WHERE id = $2`.
unfoldable pub update_task : (TaskRow → TaskRow) → String → Tasks → Tasks
update_task change id [] = []
update_task change id (row ∷ rows) =
    (if row.id == id then change row else row) ∷ update_task change id rows

-- An update of the tasks, and the error of a database that does not take it.
unfoldable pub write_task :
    String → Fault → (TaskRow → TaskRow) → String → Tasks → Option String × Tasks
write_task what fault change id rows = elim fault [
  | some e ↦ (some (text_append what e), rows)
  | none ↦ (none, update_task change id rows)
]

unfoldable pub claim_task : Fault → ℕ → String → String → Tasks → Option String × Tasks
claim_task fault now id user rows =
    write_task "failed to claim task: " fault
      (λ row. record row { assignee = some user; status = "claimed"; updated_at = now }) id rows

unfoldable pub unclaim_task : Fault → ℕ → String → Tasks → Option String × Tasks
unclaim_task fault now id rows =
    write_task "failed to unclaim task: " fault
      (λ row. record row { assignee = none; status = "pending"; updated_at = now }) id rows

unfoldable pub delegate_task : Fault → ℕ → String → String → Tasks → Option String × Tasks
delegate_task fault now id user rows =
    write_task "failed to delegate task: " fault
      (λ row. record row { assignee = some user; updated_at = now }) id rows

-- `ListInstances`.
pub record InstanceFilter : Type 0 where
  pub process_key : String
  pub status : String
  pub limit : ℤ
  pub offset : ℤ

-- `LIMIT` and `OFFSET`, where they are positive.
abbrev pub limited : {A : Type 0} → ℤ → List A → List A
limited (pos n) rows = if leb n 0 then rows else take n rows
limited (negsuc n) rows = rows

abbrev pub after_offset : {A : Type 0} → ℤ → List A → List A
after_offset (pos n) rows = drop n rows
after_offset (negsuc n) rows = rows

-- The zero time, which `StartInstance` leaves in place, is the earliest.
abbrev pub created : ProcessInstance → ℕ
created i = elim i.created_at [ none ↦ 0 | some t ↦ suc t ]

abbrev pub is_listed : InstanceFilter → ProcessInstance → Bool
is_listed filter i =
    matches filter.process_key i.process_key && matches filter.status (status_text i.status)

unfoldable pub list_instances :
    Fault → InstanceFilter → Map ProcessInstance → Result String (List ProcessInstance)
list_instances fault filter instances =
    let found = select (is_listed filter) (map (λ entry. entry.1) instances) in
    elim fault [
      | some e ↦ err (text_append "failed to list instances: " e)
      | none ↦ ok (limited filter.limit (after_offset filter.offset (newest_first created found)))
    ]

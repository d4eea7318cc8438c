-- ===== src/Instance/Service.antt =====
-- The methods of `InstanceService`: engine/internal/service/instance_service.go. `fault k` is the
-- answer of the database to the k-th call of the method at hand.
use proctssor.Prelude.{
  ℕ, String, Bool, true, false, not, ◌&&◌, is_empty, merge, Option, none, some, ok, err,
  if◌then◌else◌,
}
use proctssor.Token.{Variables}
use proctssor.Instance.Store.{
  ProcessInstanceStatus, running, completed, terminated, suspended, ProcessInstance, Broadcast,
  instance_completed, instance_suspended, instance_resumed, instance_terminated, variables_updated,
  task_completed, World, InstanceError, Fault, get_instance_by_id, update_instance, broadcast,
}

pub data ServiceError : Type 0 where
  not_read not_written : InstanceError → ServiceError
  not_running not_suspended already_over : ServiceError
  process_not_found : String → ServiceError
  no_start_node : ServiceError
  -- Not an answer: the method panics.
  panicked : ServiceError

abbrev pub Answer : Type 0
Answer = Option ServiceError × World

-- `updateInstanceStatus`: errors are only logged.
unfoldable pub update_instance_status : (ℕ → Fault) → String → ProcessInstanceStatus → World → World
update_instance_status fault id status w = elim (get_instance_by_id (fault 0) id w) [
  | err _ ↦ w
  | ok i ↦ (update_instance (fault 1) (record i { status = status }) w).1
]

-- `completeInstance`: it announces the end also where storing it failed.
unfoldable pub complete_instance : (ℕ → Fault) → ℕ → String → Variables → World → World
complete_instance fault now id variables w = elim (get_instance_by_id (fault 0) id w) [
  | err _ ↦ w
  | ok i ↦
      let i' = record i { status = completed; completed_at = some now; variables = variables } in
      broadcast id instance_completed (update_instance (fault 1) i' w).1
]

-- The update and the message that end `SuspendInstance`, `ResumeInstance` and the like.
unfoldable pub store : Fault → String → ProcessInstance → Broadcast → World → Answer
store fault id i message w =
    let (failed, w') = update_instance fault i w in
    elim failed [ some e ↦ (some (not_written e), w') | none ↦ (none, broadcast id message w') ]

abbrev pub is_running : ProcessInstanceStatus → Bool
is_running status = elim status [ running ↦ true | _ ↦ false ]

abbrev pub is_suspended : ProcessInstanceStatus → Bool
is_suspended status = elim status [ suspended ↦ true | _ ↦ false ]

abbrev pub is_over : ProcessInstanceStatus → Bool
is_over status = elim status [ completed ↦ true | terminated ↦ true | _ ↦ false ]

unfoldable pub suspend_instance : (ℕ → Fault) → String → World → Answer
suspend_instance fault id w = elim (get_instance_by_id (fault 0) id w) [
  | err e ↦ (some (not_read e), w)
  | ok i ↦
      let stored = store (fault 1) id (record i { status = suspended }) instance_suspended w in
      if not (is_running i.status) then (some not_running, w) else stored
]

unfoldable pub resume_instance : (ℕ → Fault) → String → World → Answer
resume_instance fault id w = elim (get_instance_by_id (fault 0) id w) [
  | err e ↦ (some (not_read e), w)
  | ok i ↦
      let stored = store (fault 1) id (record i { status = running }) instance_resumed w in
      if not (is_suspended i.status) then (some not_suspended, w) else stored
]

unfoldable pub terminate_instance : (ℕ → Fault) → ℕ → String → World → Answer
terminate_instance fault now id w = elim (get_instance_by_id (fault 0) id w) [
  | err e ↦ (some (not_read e), w)
  | ok i ↦
      let i' = record i { status = terminated; completed_at = some now } in
      let stored = store (fault 1) id i' instance_terminated w in
      if is_over i.status then (some already_over, w) else stored
]

-- A write into the variables that were read: no variables may be a nil map, which the column's JSON
-- `null` gives, and a write into a nil map panics. `is_null` tells which it is where there are none.
abbrev pub write_panics : Bool → Variables → Variables → Bool
write_panics is_null variables vars = is_null && is_empty variables && not (is_empty vars)

-- `UpdateVariables`.
unfoldable pub update_variables : (ℕ → Fault) → Bool → String → Variables → World → Answer
update_variables fault is_null id vars w = elim (get_instance_by_id (fault 0) id w) [
  | err e ↦ (some (not_read e), w)
  | ok i ↦
      let merged = merge i.variables vars in
      let stored =
        store (fault 1) id (record i { variables = merged }) (variables_updated merged) w in
      if write_panics is_null i.variables vars then (some panicked, w) else stored
]

-- `CompleteUserTask`: it only announces, the token stays where it is.
unfoldable pub complete_user_task :
    (ℕ → Fault) → String → String → Variables → String → World → Answer
complete_user_task fault id task_id variables user_id w = elim (get_instance_by_id (fault 0) id w) [
  | err e ↦ (some (not_read e), w)
  | ok _ ↦ (none, broadcast id (task_completed task_id user_id variables) w)
]

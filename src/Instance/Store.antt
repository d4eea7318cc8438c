-- ===== src/Instance/Store.antt =====
-- The table of instances: `ProcessInstance` of engine/internal/core/statemachine/model.go, and
-- `CreateInstance`, `GetInstanceByID` and `UpdateInstance` of
-- engine/internal/integration/postgres/repository.go. The fields of an instance that have no
-- column, or none that is read or written, are left out: version, tokens, last activity, error.
-- A call of the database fails where its `Option String` is an error, with no change.
use proctssor.Prelude.{
  ℕ, String, ◌==◌, [], Map, lookup, insert, List, ◌∷◌, ◌++◌, Option, none, some, Result, ok, err,
  if◌then◌else◌,
}
use proctssor.Token.{Variables}
use proctssor.Executor.Publisher.{Sent}

-- `error` and `waiting` are not among the declared constants: the service converts texts.
pub data ProcessInstanceStatus : Type 0 where
  pending running completed failed terminated suspended error waiting : ProcessInstanceStatus

pub record ProcessInstance : Type 0 where
  pub id : String
  pub process_key : String
  pub status : ProcessInstanceStatus
  pub variables : Variables
  pub created_at : Option ℕ
  pub started_at : Option ℕ
  pub completed_at : Option ℕ
  pub completed_by : String

-- The messages of `BroadcastToInstance`.
pub data Broadcast : Type 0 where
  instance_started : String → Broadcast
  waiting_at : String → String → Broadcast
  service_response : Variables → Broadcast
  instance_completed instance_suspended instance_resumed instance_terminated : Broadcast
  variables_updated : Variables → Broadcast
  task_completed : String → String → Variables → Broadcast

-- What the service changes: the table, the web sockets, the commands sent.
pub record World : Type 0 where
  pub instances : Map ProcessInstance
  pub broadcasts : List (String × Broadcast)
  pub sent : Sent

pub data InstanceError : Type 0 where
  no_id : InstanceError
  duplicate instance_not_found database_failed : String → InstanceError

abbrev pub Fault : Type 0
Fault = Option String

-- `CreateInstance`: the columns that it does not name are NULL.
unfoldable pub create_instance : Fault → ProcessInstance → World → Option InstanceError × World
create_instance fault i w =
    let row = record i { started_at = none; completed_at = none; completed_by = "" } in
    let made : Option InstanceError × World = elim (lookup i.id w.instances) [
      | some _ ↦ (some (duplicate i.id), w)
      | none ↦ (none, record w { instances = insert i.id row w.instances })
    ] in
    let tried : Option InstanceError × World = elim fault [
      | some message ↦ (some (database_failed message), w)
      | none ↦ made
    ] in
    if i.id == "" then (some no_id, w) else tried

unfoldable pub get_instance_by_id : Fault → String → World → Result InstanceError ProcessInstance
get_instance_by_id fault id w = elim fault [
  | some message ↦ err (database_failed message)
  | none ↦ elim (lookup id w.instances) [ none ↦ err (instance_not_found id) | some i ↦ ok i ]
]

-- `UpdateInstance`: it writes the status and the variables, and no other field.
unfoldable pub update_instance : Fault → ProcessInstance → World → Option InstanceError × World
update_instance fault i w =
    let written : Option InstanceError × World = elim (lookup i.id w.instances) [
      | none ↦ (some (instance_not_found i.id), w)
      | some row ↦ (
        none,
        record w {
          instances =
              insert i.id (record row { status = i.status; variables = i.variables }) w.instances;
        },
      )
    ] in
    let tried : Option InstanceError × World = elim fault [
      | some message ↦ (some (database_failed message), w)
      | none ↦ written
    ] in
    if i.id == "" then (some no_id, w) else tried

unfoldable pub broadcast : String → Broadcast → World → World
broadcast id message w = record w { broadcasts = w.broadcasts ++ (id, message) ∷ [] }

-- ===== src/Instance/Status.antt =====
-- The statuses of an instance under the methods of engine/internal/service/instance_service.go
-- that clients call, and at the end of a walk.
use proctssor.Prelude.{
  merge, if◌then◌else◌, Bool, not, ◌&&◌, is_empty, ℕ, String, eq_iff, ◌≡◌, ◌≢◌, true, lookup,
  lookup-insert, Option, none, some, ok, is_some, arith,
}
use proctssor.Token.{Variables}
use proctssor.Instance.Store.{
  ProcessInstanceStatus, running, completed, terminated, suspended, ProcessInstance, Broadcast,
  instance_resumed, instance_suspended, instance_terminated, variables_updated, World, Fault,
  get_instance_by_id, update_instance, broadcast,
}
use proctssor.Instance.Service.{
  Answer, ServiceError, store, suspend_instance, resume_instance, terminate_instance,
  update_variables,
}

-- What a client may ask of an instance; the variables that are set come with whether the variables of
-- the instance, if there are none, are a nil map.
pub data Command : Type 0 where
  suspend resume : Command
  terminate : ℕ → Command
  set_variables : Bool → Variables → Command

unfoldable pub perform : Command → (ℕ → Fault) → String → World → Answer
perform suspend fault id w = suspend_instance fault id w
perform resume fault id w = resume_instance fault id w
perform (terminate now) fault id w = terminate_instance fault now id w
perform (set_variables is_null vars) fault id w = update_variables fault is_null id vars w

-- The diagram of the commands: the status that each leads to, and `none` where it is refused.
-- Variables cannot be set on a nil map.
abbrev pub next_status : Command → ProcessInstanceStatus → Variables → Option ProcessInstanceStatus
next_status suspend running variables = some suspended
next_status resume suspended variables = some running
next_status (terminate now) completed variables = none
next_status (terminate now) terminated variables = none
next_status (terminate now) _ variables = some terminated
next_status (set_variables is_null vars) status variables =
    if is_null && is_empty variables && not (is_empty vars) then none else some status
next_status _ _ _ = none

-- A command that answers an error, of the database or of its own, changes neither the table nor
-- what was announced or sent.
pub perform-refused :
    (c : Command) (fault : ℕ → Fault) (id : String) (w : World) {e : ServiceError}
    → (perform c fault id w).0 ≡ some e
    → (perform c fault id w).1 ≡ w
unfolding perform suspend_instance resume_instance terminate_instance update_variables store
    update_instance
perform-refused suspend fault id w h = ground arith
perform-refused resume fault id w h = ground arith
perform-refused (terminate now) fault id w h = ground arith
perform-refused (set_variables is_null vars) fault id w h = ground arith

-- The row under the identifier, which is not empty and is the row's own.
pub record IsRow (id : String) (i : ProcessInstance) (w : World) : Type 0 where
  pub found : lookup id w.instances ≡ some i
  pub own : i.id ≡ id
  pub named : id ≢ ""

abbrev pub IsUp : (ℕ → Fault) → Type 0
IsUp fault = (k : ℕ) → fault k ≡ none

store-row :
    (id : String) (fault : Fault) (i i' : ProcessInstance) (message : Broadcast) (w : World)
    → IsRow id i w
    → i'.id ≡ id
    → fault ≡ none
    → ((store fault id i' message w).0 ≡ none)
      × (lookup id (store fault id i' message w).1.instances
          ≡ some (record i { status = i'.status; variables = i'.variables }))
unfolding store update_instance broadcast
store-row id fault i i' message w row own up = ground (
  arith,
  row,
  own,
  up,
  eq_iff id "",
  lookup-insert id id (record i { status = i'.status; variables = i'.variables }) w.instances,
  eq_iff id id,
)

abbrev pub new_variables : Command → Variables → Variables
new_variables (set_variables is_null vars) variables = merge variables vars
new_variables _ variables = variables

-- What a command does to its row, by the diagram.
abbrev pub Performed :
    Command → String → ProcessInstance → World → Answer → Option ProcessInstanceStatus → Type 0
Performed c id i w answer none = (is_some answer.0 ≡ true) × (answer.1 ≡ w)
Performed c id i w answer (some status) =
    (answer.0 ≡ none)
    × (lookup id answer.1.instances
        ≡ some (record i { status = status; variables = new_variables c i.variables }))

pub read_row :
    (id : String) (i : ProcessInstance) (w : World) (fault : Fault)
    → IsRow id i w
    → fault ≡ none
    → get_instance_by_id fault id w ≡ ok i
unfolding get_instance_by_id
read_row id i w fault row up = ground (arith, row, up)

-- With a database that works, a command on an instance of the table does exactly what the diagram
-- says: it is refused, or panics on a nil map, without an effect where the diagram has no edge, and
-- else it is accepted and leaves the row with the new status, and with the merged variables if it sets
-- variables. No other column of the row that is modelled changes.
pub perform_lem :
    (c : Command) (fault : ℕ → Fault) (id : String) (i : ProcessInstance) (w : World)
    → IsRow id i w
    → IsUp fault
    → Performed c id i w (perform c fault id w) (next_status c i.status i.variables)
unfolding perform suspend_instance resume_instance terminate_instance update_variables
perform_lem suspend fault id i w row up = ground (
  arith,
  read_row id i w (fault 0) row (up 0),
  store-row id (fault 1) i (record i { status = suspended }) instance_suspended w row row.own
      (up 1),
)
perform_lem resume fault id i w row up = ground (
  arith,
  read_row id i w (fault 0) row (up 0),
  store-row id (fault 1) i (record i { status = running }) instance_resumed w row row.own (up 1),
)
perform_lem (terminate now) fault id i w row up = ground (
  arith,
  read_row id i w (fault 0) row (up 0),
  store-row id (fault 1) i (record i { status = terminated; completed_at = some now })
      instance_terminated w row row.own (up 1),
)
perform_lem (set_variables is_null vars) fault id i w row up = ground (
  arith,
  read_row id i w (fault 0) row (up 0),
  store-row id (fault 1) i (record i { variables = merge i.variables vars })
      (variables_updated (merge i.variables vars)) w row row.own (up 1),
)

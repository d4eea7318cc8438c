-- ===== src/Instance/Ending.antt =====
-- What the end of a walk leaves in the table: engine/internal/service/instance_service.go.
use proctssor.Prelude.{ℕ, String, eq_iff, ◌≡◌, lookup, lookup-insert, none, some, arith}
use proctssor.Token.{Variables}
use proctssor.Instance.Store.{
  ProcessInstanceStatus, completed, error, waiting, ProcessInstance, World, Fault, update_instance,
  broadcast,
}
use proctssor.Instance.Service.{update_instance_status, complete_instance}
use proctssor.Instance.Status.{IsRow, IsUp, read_row}
use proctssor.Instance.Walk.{
  Surroundings, Position, Ending, missing_node, broken, parked, finished, settle,
}

abbrev pub end_status : Ending → ProcessInstanceStatus
end_status missing_node = error
end_status (broken _) = error
end_status (parked _) = waiting
end_status finished = completed

abbrev pub end_variables : Ending → Variables → Variables → Variables
end_variables finished walked stored = walked
end_variables _ walked stored = stored

update_instance-row :
    (id : String) (fault : Fault) (i i' : ProcessInstance) (w : World)
    → IsRow id i w
    → i'.id ≡ id
    → fault ≡ none
    → lookup id (update_instance fault i' w).1.instances
      ≡ some (record i { status = i'.status; variables = i'.variables })
unfolding update_instance
update_instance-row id fault i i' w row own up = ground (
  arith,
  row,
  own,
  up,
  eq_iff id "",
  lookup-insert id id (record i { status = i'.status; variables = i'.variables }) w.instances,
  eq_iff id id,
)

status-row :
    (id : String) (fault : ℕ → Fault) (status : ProcessInstanceStatus) (i : ProcessInstance)
    (w : World)
    → IsRow id i w
    → IsUp fault
    → lookup id (update_instance_status fault id status w).instances
      ≡ some (record i { status = status })
unfolding update_instance_status
status-row id fault status i w row up = ground (
  arith,
  read_row id i w (fault 0) row (up 0),
  update_instance-row id (fault 1) i (record i { status = status }) w row row.own (up 1),
)

-- With a database that works, the end of a walk overwrites the status of the instance by that of
-- the ending, whatever a client has made of the instance meanwhile: a terminated or suspended one
-- too. The variables of the walk are stored only if it finished, and lost if it waits; the time of
-- the end is stored in no case.
pub settle_lem :
    (s : Surroundings) (id : String) (at : Position) (how : Ending) (i : ProcessInstance)
    (w : World)
    → IsRow id i w
    → IsUp s.fault
    → lookup id (settle s id at how w).instances
      ≡ some (record i {
        status = end_status how;
        variables = end_variables how at.variables i.variables;
      })
unfolding settle complete_instance broadcast
settle_lem s id at missing_node i w row up = status-row id s.fault error i w row up
settle_lem s id at (broken e) i w row up = status-row id s.fault error i w row up
settle_lem s id at (parked kind) i w row up = status-row id s.fault waiting i w row up
settle_lem s id at finished i w row up =
    let i' : ProcessInstance = record i {
      status = completed;
      completed_at = some s.ended_at;
      variables = at.variables;
    } in
    ground (
      arith,
      read_row id i w (s.fault 0) row (up 0),
      update_instance-row id (s.fault 1) i i' w row row.own (up 1),
    )

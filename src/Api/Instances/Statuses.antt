-- ===== src/Api/Instances/Statuses.antt =====
-- The statuses that the handlers of engine/internal/api/handlers/instances.go answer with.
use proctssor.Prelude.{ℕ, String, Bool, ◌≡◌, merge, lookup, Option, none, some, Result, ok, arith}
use proctssor.Token.{Variables}
use proctssor.Instance.Store.{
  ProcessInstanceStatus, ProcessInstance, World, Fault, get_instance_by_id,
}
use proctssor.Instance.Service.{
  suspend_instance, resume_instance, terminate_instance, update_variables, complete_user_task,
}
use proctssor.Instance.Status.{
  Command, perform, next_status, new_variables, IsRow, IsUp, read_row, perform_lem,
}
use proctssor.Instance.Tasks.{status_text}
use proctssor.Api.{Reply, ok_status, bad_request, not_found, server_error}
use proctssor.Api.Instances.{
  Body, changed, variables, CompleteTaskRequest, conclude, suspend, resume, terminate,
  put_variables, get_by_id, get_variables, complete_task,
}

-- The handler of a command.
unfoldable pub handle : Command → (ℕ → Fault) → String → World → Reply Body × World
handle Command.suspend fault id w = suspend fault id w
handle Command.resume fault id w = resume fault id w
handle (Command.terminate now) fault id w = terminate fault now id w
handle (Command.set_variables is_null vars) fault id w = put_variables fault is_null id (ok vars) w

-- What a reply says of an instance that has a new status.
abbrev pub shown : Command → String → ProcessInstance → ProcessInstanceStatus → Body
shown (Command.set_variables is_null vars) id i status = variables (merge i.variables vars)
shown _ id i status = changed id (status_text status)

-- A refused command is a bad request; variables that cannot be set are a panic that was recovered.
abbrev pub refusal : Command → ℕ
refusal (Command.set_variables is_null vars) = server_error
refusal _ = bad_request

abbrev pub IsReplied :
    Command
    → String
    → ProcessInstance
    → World
    → Reply Body × World
    → Option ProcessInstanceStatus
    → Type 0
IsReplied c id i w answer none = (answer.0.status ≡ refusal c) × (answer.1 ≡ w)
IsReplied c id i w answer (some status) =
    (answer.0 ≡ record { status = ok_status; body = shown c id i status })
    × (lookup id answer.1.instances
        ≡ some (record i { status = status; variables = new_variables c i.variables }))

-- With a database that works, a command for an instance of the table is answered as the diagram of
-- statuses says: where it has no edge with 400, or with 500 for variables that are set on a nil map,
-- and no effect, and else with 200, the new status or the
-- merged variables in the reply, and the same in the row.
pub handle_lem :
    (c : Command) (fault : ℕ → Fault) (id : String) (i : ProcessInstance) (w : World)
    → IsRow id i w
    → IsUp fault
    → IsReplied c id i w (handle c fault id w) (next_status c i.status i.variables)
unfolding handle suspend resume terminate put_variables conclude perform
handle_lem Command.suspend fault id i w row up =
    ground (arith, perform_lem Command.suspend fault id i w row up)
handle_lem Command.resume fault id i w row up =
    ground (arith, perform_lem Command.resume fault id i w row up)
handle_lem (Command.terminate now) fault id i w row up =
    ground (arith, perform_lem (Command.terminate now) fault id i w row up)
handle_lem (Command.set_variables is_null vars) fault id i w row up = ground (
  arith,
  perform_lem (Command.set_variables is_null vars) fault id i w row up,
  read_row id i w (fault 0) row (up 0),
)

-- The statuses of the replies about an instance that is not in the table: not found to those who ask
-- for it or its variables, a bad request to those who command it or complete a task, and an error of
-- the server to those who set variables. None has an effect.
pub handle_missing :
    (fault : ℕ → Fault) (is_null : Bool) (now : ℕ) (id task_id : String) (vars : Variables)
    (body : Result String CompleteTaskRequest) (w : World)
    → lookup id w.instances ≡ none
    → fault 0 ≡ none
    → ((get_by_id (fault 0) id w).status ≡ not_found)
      × (((get_variables (fault 0) id w).status ≡ not_found)
          × ((((suspend fault id w).0.status ≡ bad_request) × ((suspend fault id w).1 ≡ w))
              × ((((resume fault id w).0.status ≡ bad_request) × ((resume fault id w).1 ≡ w))
                  × ((((terminate fault now id w).0.status ≡ bad_request)
                        × ((terminate fault now id w).1 ≡ w))
                      × ((((complete_task fault id task_id body w).0.status ≡ bad_request)
                            × ((complete_task fault id task_id body w).1 ≡ w))
                          × (((put_variables fault is_null id (ok vars) w).0.status ≡ server_error)
                              × ((put_variables fault is_null id (ok vars) w).1 ≡ w)))))))
unfolding get_by_id get_variables suspend resume terminate complete_task put_variables conclude
    get_instance_by_id suspend_instance resume_instance terminate_instance update_variables
    complete_user_task
handle_missing fault is_null now id task_id vars body w gone up = ground (arith, gone, up)

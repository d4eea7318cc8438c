-- ===== src/Api/Instances.antt =====
-- The handlers of instances and tasks: engine/internal/api/handlers/instances.go, with the methods of
-- engine/internal/service/instance_service.go that pass a call on. `fault k` is the answer of the
-- database to the k-th call of a handler. A request body is what gin has read, or its error. The
-- lists of tokens and events are left out.
pub mod Statuses
use Prim.Native.String.{◌++◌ as text_append}
use proctssor.Prelude.{
  ℕ, ℤ, pos, negsuc, String, Bool, ◌==◌, List, [], ◌∷◌, map, merge, Map, Option, none, some, Result,
  ok, err, if◌then◌else◌,
}
use proctssor.Bpmn.Process.{Process}
use proctssor.Token.{Variables}
use proctssor.Instance.Store.{ProcessInstance, World, Fault, get_instance_by_id}
use proctssor.Instance.Service.{
  ServiceError, not_read, Answer, suspend_instance, resume_instance, terminate_instance,
  update_variables, complete_user_task,
}
use proctssor.Instance.Walk.{start_instance}
use proctssor.Instance.Tasks.{
  Tasks, UserTask, TaskFilter, InstanceFilter, status_text, get_tasks, get_task_history, claim_task,
  unclaim_task, delegate_task, list_instances,
}
use proctssor.Api.{Reply, reply, ok_status, created, bad_request, not_found, server_error}

-- What `GetInstance` and `ListInstances` show of an instance.
pub record InstanceInfo : Type 0 where
  pub id : String
  pub process_key : String
  pub status : String
  pub variables : Variables
  pub started_at : Option ℕ
  pub completed_at : Option ℕ

pub record StartRequest : Type 0 where
  pub variables : Variables
  pub initiator : String

pub record StartResponse : Type 0 where
  pub instance_id : String
  pub process_id : String
  pub status : String
  pub variables : Variables
  pub started_at : Option ℕ

pub record CompleteTaskRequest : Type 0 where
  pub variables : Variables
  pub user_id : String

-- The bodies of the replies; `refused` and `failed` are errors, of the service and of a table.
pub data Body : Type 0 where
  refused : ServiceError → Body
  failed : String → Body
  started : StartResponse → Body
  instances : List InstanceInfo → Body
  instance_info : InstanceInfo → Body
  changed : String → String → Body
  variables : Variables → Body
  tasks : List UserTask → Body
  task_form : String → String → Body
  done : String → List (String × String) → Body

unfoldable pub info : ProcessInstance → InstanceInfo
info i = record {
  id = i.id;
  process_key = i.process_key;
  status = status_text i.status;
  variables = i.variables;
  started_at = i.started_at;
  completed_at = i.completed_at;
}

-- `Start`. A body that cannot be read counts as an empty one, and the key is that of the path or of
-- the context.
unfoldable pub start :
    (String → Option Process)
    → Fault
    → String
    → ℕ
    → String
    → String
    → Result String StartRequest
    → World
    → Reply Body × World
start get_process_by_key fault fresh now id context_key body w =
    let vars : Variables = elim body [ err e ↦ [] | ok req ↦ req.variables ] in
    let key = if id == "" then context_key else id in
    let (answer, w') = start_instance get_process_by_key fault fresh now key vars w in
    elim answer [
      | err e ↦ (reply server_error (refused e), w')
      | ok (i, job) ↦ (
        reply created (
            started (record {
              instance_id = i.id;
              process_id = key;
              status = status_text i.status;
              variables = i.variables;
              started_at = i.started_at;
            })),
        w',
      )
    ]

-- `List` with the limit that `strconv.Atoi` reads, if it reads one.
unfoldable pub list : Fault → String → String → Option ℤ → World → Reply Body
list fault process_key status limit w =
    let filter : InstanceFilter = record {
      process_key = process_key;
      status = status;
      limit = elim limit [ none ↦ pos 0 | some n ↦ n ];
      offset = pos 0;
    } in
    elim (list_instances fault filter w.instances) [
      | err e ↦ reply server_error (failed e)
      | ok found ↦ reply ok_status (instances (map info found))
    ]

unfoldable pub get_by_id : Fault → String → World → Reply Body
get_by_id fault id w = elim (get_instance_by_id fault id w) [
  | err e ↦ reply not_found (refused (not_read e))
  | ok i ↦ reply ok_status (instance_info (info i))
]

-- The end of `Suspend`, `Resume` and `Terminate`.
unfoldable pub conclude : String → String → Answer → Reply Body × World
conclude id status answer = elim answer.0 [
  | some e ↦ (reply bad_request (refused e), answer.1)
  | none ↦ (reply ok_status (changed id status), answer.1)
]

unfoldable pub suspend : (ℕ → Fault) → String → World → Reply Body × World
suspend fault id w = conclude id "suspended" (suspend_instance fault id w)

unfoldable pub resume : (ℕ → Fault) → String → World → Reply Body × World
resume fault id w = conclude id "running" (resume_instance fault id w)

unfoldable pub terminate : (ℕ → Fault) → ℕ → String → World → Reply Body × World
terminate fault now id w = conclude id "terminated" (terminate_instance fault now id w)

unfoldable pub get_variables : Fault → String → World → Reply Body
get_variables fault id w = elim (get_instance_by_id fault id w) [
  | err e ↦ reply not_found (refused (not_read e))
  | ok i ↦ reply ok_status (variables i.variables)
]

-- The variables that the service gives back after an update are those it has read, and the new ones.
-- A panic is answered by the middleware `Recovery`.
unfoldable pub put_variables :
    (ℕ → Fault) → Bool → String → Result String Variables → World → Reply Body × World
put_variables fault is_null id body w = elim body [
  | err e ↦ (reply bad_request (failed e), w)
  | ok vars ↦
      let (failure, w') = update_variables fault is_null id vars w in
      let merged : Variables = elim (get_instance_by_id (fault 0) id w) [
        | err e ↦ []
        | ok i ↦ merge i.variables vars
      ] in
      elim failure [
        | some e ↦ (reply server_error (refused e), w')
        | none ↦ (reply ok_status (variables merged), w')
      ]
]

-- A body that cannot be read sets no user.
unfoldable pub complete_task :
    (ℕ → Fault) → String → String → Result String CompleteTaskRequest → World → Reply Body × World
complete_task fault id task_id body w =
    let vars : Variables = elim body [ err e ↦ [] | ok req ↦ req.variables ] in
    let user : String = elim body [ err e ↦ "" | ok req ↦ req.user_id ] in
    let (failure, w') = complete_user_task fault id task_id vars user w in
    elim failure [
      | some e ↦ (reply bad_request (refused e), w')
      | none ↦ (reply ok_status (done "Task completed" []), w')
    ]

-- `GetTaskForm`: it knows no task and no instance.
unfoldable pub get_task_form : String → String → Reply Body
get_task_form id task_id = reply ok_status (task_form task_id id)

unfoldable pub list_tasks :
    (String → Option Variables) → Fault → String → String → Map ProcessInstance → Tasks → Reply Body
list_tasks unmarshal fault assignee status rows task_rows =
    let filter : TaskFilter = record { assignee = assignee; instance_id = ""; status = status } in
    elim (get_tasks unmarshal fault filter rows task_rows) [
      | err e ↦ reply server_error (failed e)
      | ok found ↦ reply ok_status (tasks found)
    ]

-- The end of the three commands on a task.
unfoldable pub answer_task :
    String → List (String × String) → Option String × Tasks → Reply Body × Tasks
answer_task message fields result = elim result.0 [
  | some e ↦ (reply bad_request (failed e), result.1)
  | none ↦ (reply ok_status (done message fields), result.1)
]

-- Who claims a task: the user of the body or, if it cannot be read, of the header `X-User-ID`.
unfoldable pub claimant : Result String String → String → String
claimant body header = elim body [
  | ok user ↦ user
  | err e ↦ if header == "" then "anonymous" else header
]

unfoldable pub claim :
    Fault → ℕ → String → Result String String → String → Tasks → Reply Body × Tasks
claim fault now id body header rows =
    answer_task "Task claimed" (("task_id", id) ∷ [])
      (claim_task fault now id (claimant body header) rows)

unfoldable pub unclaim : Fault → ℕ → String → Tasks → Reply Body × Tasks
unclaim fault now id rows =
    answer_task "Task unclaimed" (("task_id", id) ∷ []) (unclaim_task fault now id rows)

unfoldable pub delegate : Fault → ℕ → String → Result String String → Tasks → Reply Body × Tasks
delegate fault now id body rows = elim body [
  | err e ↦ (reply bad_request (failed "user_id is required"), rows)
  | ok user ↦
      answer_task "Task delegated" (("task_id", id) ∷ ("delegate_to", user) ∷ [])
        (delegate_task fault now id user rows)
]

-- `GetTaskHistory` with the limit that `strconv.Atoi` reads, or 100.
unfoldable pub task_history : (String → Option Variables) → Fault → Option ℤ → Tasks → Reply Body
task_history unmarshal fault limit rows =
    elim (get_task_history unmarshal fault (elim limit [ none ↦ pos 100 | some n ↦ n ]) rows) [
      | err e ↦ reply server_error (failed e)
      | ok found ↦ reply ok_status (tasks found)
    ]

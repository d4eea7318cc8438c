-- ===== src/Tests/Tasks.antt =====
-- The theorems on user tasks, tried on a table of two tasks.
use proctssor.Prelude.{pos, String, ◌≡◌, refl, [], ◌∷◌, List, Option, none, some, ok, map}
use proctssor.Token.{Variables}
use proctssor.Instance.Tasks.{
  TaskRow, Tasks, UserTask, get_task_history, update_task, write_task, claim_task, unclaim_task,
  delegate_task,
}
use proctssor.Instance.Tasks.Assigned.{
  Order, claim, unclaim, delegate, perform, perform_all, holder, expected_of, fixed,
  perform_all_refines,
}
use proctssor.Instance.Tasks.Listed.{
  IsHistory, AllListed, IsOther, get_task_history_lem, unclaim_task-get_task_history,
}

abbrev no_variables : String → Option Variables
no_variables text = none

abbrev approval : TaskRow
approval = record {
  id = "a";
  name = "approve";
  instance_id = "i";
  process_definition_id = "order";
  assignee = some "ann";
  status = "claimed";
  created_at = 1;
  completed_at = some 4;
  due_date = none;
  updated_at = 1;
  variables = "{}";
}

abbrev board : Tasks
board =
    approval
    ∷ record approval { id = "b"; assignee = none; status = "pending"; completed_at = some 7 }
    ∷ []

abbrev orders : List Order
orders =
    record { fault = none; now = 5; id = "a"; command = claim "bob" }
    ∷ record { fault = some "down"; now = 6; id = "a"; command = unclaim }
    ∷ record { fault = none; now = 5; id = "b"; command = delegate "eve" }
    ∷ []

-- A task that somebody holds is claimed by somebody else.
stolen : holder "a" (perform_all orders board) ≡ some (some "bob", "claimed", 5)
unfolding perform perform_all claim_task unclaim_task delegate_task write_task update_task
stolen = refl

perform_all_refines_example :
    (holder "a" (perform_all orders board) ≡ expected_of "a" orders (holder "a" board))
    × (map fixed (perform_all orders board) ≡ map fixed board)
perform_all_refines_example = perform_all_refines orders "a" board

get_task_history_lem_example :
    (tasks : List UserTask) × ((get_task_history no_variables none (pos 1) board ≡ ok tasks)
      × IsHistory 1 tasks)
get_task_history_lem_example = get_task_history_lem no_variables 1 board

unclaim_task-get_task_history_example :
    AllListed
      (IsOther "a")
      (get_task_history no_variables none (pos 9) (unclaim_task none 8 "a" board).1)
unclaim_task-get_task_history_example =
    unclaim_task-get_task_history no_variables none (pos 9) 8 "a" board

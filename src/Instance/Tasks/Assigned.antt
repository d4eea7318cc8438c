-- ===== src/Instance/Tasks/Assigned.antt =====
-- Who holds a task: `ClaimTask`, `UnclaimTask` and `DelegateTask` of
-- engine/internal/integration/postgres/repository.go.
use proctssor.Prelude.{
  ℕ, String, ◌==◌, eq_iff, ◌≡◌, refl, ap, ◌∙◌, List, [], ◌∷◌, map, Option, none, some, Bool-cases,
  inl, inr, if◌then◌else◌, arith,
}
use proctssor.Instance.Store.{Fault}
use proctssor.Instance.Tasks.{
  TaskRow, Tasks, update_task, write_task, claim_task, unclaim_task, delegate_task,
}

pub data TaskCommand : Type 0 where
  claim : String → TaskCommand
  unclaim : TaskCommand
  delegate : String → TaskCommand

-- A command for a task, and what the database answers to it.
pub record Order : Type 0 where
  pub fault : Fault
  pub now : ℕ
  pub id : String
  pub command : TaskCommand

unfoldable pub perform : Order → Tasks → Option String × Tasks
perform order rows = elim order.command [
  | claim user ↦ claim_task order.fault order.now order.id user rows
  | unclaim ↦ unclaim_task order.fault order.now order.id rows
  | delegate user ↦ delegate_task order.fault order.now order.id user rows
]

unfoldable pub perform_all : List Order → Tasks → Tasks
perform_all [] rows = rows
perform_all (order ∷ orders) rows = perform_all orders (perform order rows).1

-- The holder, the status and the last change of the task with an identifier.
abbrev pub Held : Type 0
Held = Option String × String × ℕ

abbrev pub held_by : TaskRow → Held
held_by row = (row.assignee, row.status, row.updated_at)

abbrev pub holder : String → Tasks → Option Held
holder id [] = none
holder id (row ∷ rows) = if row.id == id then some (held_by row) else holder id rows

-- What a command means for a task, whoever holds it.
abbrev pub meaning : ℕ → TaskCommand → Held → Held
meaning now (claim user) held = (some user, "claimed", now)
meaning now unclaim held = (none, "pending", now)
meaning now (delegate user) (holder, status, at) = (some user, status, now)

abbrev pub takes_effect : String → Order → Held → Held
takes_effect id order held = elim order.fault [
  | some e ↦ held
  | none ↦ if order.id == id then meaning order.now order.command held else held
]

abbrev pub expected : String → List Order → Held → Held
expected id [] held = held
expected id (order ∷ orders) held = expected id orders (takes_effect id order held)

abbrev pub expected_of : String → List Order → Option Held → Option Held
expected_of id orders o = elim o [ none ↦ none | some held ↦ some (expected id orders held) ]

abbrev pub change : ℕ → TaskCommand → TaskRow → TaskRow
change now (claim user) row = record row {
  assignee = some user;
  status = "claimed";
  updated_at = now;
}
change now unclaim row = record row { assignee = none; status = "pending"; updated_at = now }
change now (delegate user) row = record row { assignee = some user; updated_at = now }

-- What no command changes.
abbrev pub fixed : TaskRow → TaskRow
fixed row = record row { assignee = none; status = ""; updated_at = 0 }

perform-updates :
    (order : Order) (rows : Tasks)
    → (perform order rows).1 ≡ elim order.fault [
      | some e ↦ rows
      | none ↦ update_task (change order.now order.command) order.id rows
    ]
unfolding perform claim_task unclaim_task delegate_task write_task
perform-updates order rows = ground arith

change-id : (now : ℕ) (c : TaskCommand) (row : TaskRow) → (change now c row).id ≡ row.id
change-id now (claim user) row = refl
change-id now unclaim row = refl
change-id now (delegate user) row = refl

change-held :
    (now : ℕ) (c : TaskCommand) (row : TaskRow)
    → held_by (change now c row) ≡ meaning now c (held_by row)
change-held now (claim user) row = refl
change-held now unclaim row = refl
change-held now (delegate user) row = refl

change-fixed : (now : ℕ) (c : TaskCommand) (row : TaskRow) → fixed (change now c row) ≡ fixed row
change-fixed now (claim user) row = refl
change-fixed now unclaim row = refl
change-fixed now (delegate user) row = refl

update_task-holder :
    (now : ℕ) (c : TaskCommand) (id j : String) (rows : Tasks)
    → holder j (update_task (change now c) id rows) ≡ elim (holder j rows) [
      | none ↦ none
      | some held ↦ some (if id == j then meaning now c held else held)
    ]
unfolding update_task
update_task-holder now c id j [] = refl
update_task-holder now c id j (row ∷ rows) = elim (Bool-cases (row.id == id)) [
  | inl here ↦
      rw (here, change-id now c row, change-held now c row, update_task-holder now c id j rows)
        (ground (arith, eq_iff row.id id, eq_iff row.id j, eq_iff id j, here))
  | inr other ↦
      rw (other, update_task-holder now c id j rows)
        (ground (arith, eq_iff row.id id, eq_iff row.id j, eq_iff id j, other))
]

update_task-fixed :
    (now : ℕ) (c : TaskCommand) (id : String) (rows : Tasks)
    → map fixed (update_task (change now c) id rows) ≡ map fixed rows
unfolding update_task
update_task-fixed now c id [] = refl
update_task-fixed now c id (row ∷ rows) = elim (Bool-cases (row.id == id)) [
  | inl here ↦
      rw (here, update_task-fixed now c id rows)
        (ap (λ r. r ∷ map fixed rows) (change-fixed now c row))
  | inr other ↦ rw (other, update_task-fixed now c id rows) refl
]

answered :
    (fault : Fault) (now : ℕ) (c : TaskCommand) (id j : String) (rows : Tasks)
    → holder j (elim fault [ some e ↦ rows | none ↦ update_task (change now c) id rows ])
      ≡ elim (holder j rows) [
        | none ↦ none
        | some held ↦
            some
              (elim fault [ some e ↦ held | none ↦ if id == j then meaning now c held else held ])
      ]
answered none now c id j rows = update_task-holder now c id j rows
answered (some e) now c id j rows = ground arith

kept :
    (fault : Fault) (now : ℕ) (c : TaskCommand) (id : String) (rows : Tasks)
    → map fixed (elim fault [ some e ↦ rows | none ↦ update_task (change now c) id rows ])
      ≡ map fixed rows
kept none now c id rows = update_task-fixed now c id rows
kept (some e) now c id rows = refl

perform-holder :
    (order : Order) (j : String) (rows : Tasks)
    → holder j (perform order rows).1
      ≡ elim (holder j rows) [ none ↦ none | some held ↦ some (takes_effect j order held) ]
perform-holder order j rows =
    ap (holder j) (perform-updates order rows)
    ∙ answered order.fault order.now order.command order.id j rows

perform-fixed : (order : Order) (rows : Tasks) → map fixed (perform order rows).1 ≡ map fixed rows
perform-fixed order rows =
    ap (map fixed) (perform-updates order rows)
    ∙ kept order.fault order.now order.command order.id rows

-- After any commands, each task's holder, status and time of the last change are what those for this
-- task say, one after the other and but for those that the database did not take, and no other column
-- of the table has changed.
-- A command does not ask whether somebody holds the task.
pub perform_all_refines :
    (orders : List Order) (id : String) (rows : Tasks)
    → (holder id (perform_all orders rows) ≡ expected_of id orders (holder id rows))
      × (map fixed (perform_all orders rows) ≡ map fixed rows)
unfolding perform_all
perform_all_refines [] id rows = (ground arith, refl)
perform_all_refines (order ∷ orders) id rows =
    let later = perform_all_refines orders id (perform order rows).1 in
    (later.0 ∙ ground (arith, perform-holder order id rows), later.1 ∙ perform-fixed order rows)

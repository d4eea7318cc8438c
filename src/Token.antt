-- ===== src/Token.antt =====
-- The token state machine: engine/internal/core/statemachine/model.go and statemachine.go.
-- A method that changes `*Token` returns the new record beside its error. The statuses are the
-- declared constants of the string type. `now k` is what the k-th call of `time.Now` returns in
-- the operation at hand, and `uuid.New` is a parameter.
pub mod Diagram
pub mod Refusals
pub mod History
pub mod Stamps
use Prim.Native.String.{◌++◌ as text_append}
use proctssor.Prelude.{
  ℕ, String, Bool, true, false, not, ◌||◌, List, [], ◌∷◌, ◌++◌, Map, Option, none, some,
  if◌then◌else◌, exists,
}

pub data TokenStatus : Type 0 where
  pending active waiting completed failed terminated suspended : TokenStatus

-- `status == to` on the string constants.
abbrev pub status_eq : TokenStatus → TokenStatus → Bool
status_eq pending pending = true
status_eq active active = true
status_eq waiting waiting = true
status_eq completed completed = true
status_eq failed failed = true
status_eq terminated terminated = true
status_eq suspended suspended = true
status_eq _ _ = false

-- The values of process variables. `reference n` stands for any other Go value.
pub data Value : Type 0 where
  null : Value
  bool : Bool → Value
  text : String → Value
  reference : ℕ → Value

abbrev pub Variables : Type 0
Variables = Map Value

pub record TokenError : Type 0 where
  pub code : String
  pub message : String
  pub stack : String

pub record TokenHistory : Type 0 where
  pub from_status : TokenStatus
  pub to_status : TokenStatus
  pub timestamp : ℕ
  pub action : String

pub record Token : Type 0 where
  pub id : String
  pub instance_id : String
  pub node_id : String
  pub status : TokenStatus
  pub variables : Variables
  pub created_at : ℕ
  pub updated_at : ℕ
  pub started_at : Option ℕ
  pub completed_at : Option ℕ
  pub error : Option TokenError
  pub history : List TokenHistory

-- `NewToken`, with the fresh identifier that `uuid.New` gives.
unfoldable pub new_token : String → ℕ → String → String → Variables → Token
new_token fresh now instance_id node_id variables = record {
  id = fresh;
  instance_id = instance_id;
  node_id = node_id;
  status = pending;
  variables = variables;
  created_at = now;
  updated_at = now;
  started_at = none;
  completed_at = none;
  error = none;
  history = [];
}

-- The map that `NewStateMachine` fills, and `GetAvailableTransitions` reads.
abbrev pub transitions : TokenStatus → List TokenStatus
transitions pending = active ∷ waiting ∷ terminated ∷ []
transitions active = completed ∷ failed ∷ waiting ∷ suspended ∷ terminated ∷ []
transitions waiting = active ∷ terminated ∷ suspended ∷ []
transitions completed = []
transitions failed = active ∷ terminated ∷ []
transitions terminated = []
transitions suspended = active ∷ terminated ∷ []

unfoldable pub can_transition : TokenStatus → TokenStatus → Bool
can_transition from to = exists (λ status. status_eq status to) (transitions from)

pub data TransitionError : Type 0 where
  invalid_transition : TokenStatus → TokenStatus → TransitionError

-- The `switch to` at the end of `Transition`.
stamp : ℕ → TokenStatus → Token → Token
stamp now active t = record t { started_at = some now }
stamp now completed t = record t { completed_at = some now }
stamp now failed t = record t { completed_at = some now }
stamp now terminated t = record t { completed_at = some now }
stamp now _ t = t

unfoldable pub transition : (ℕ → ℕ) → Token → TokenStatus → String → Token × Option TransitionError
unfolding can_transition stamp
transition now t to action =
    let entry : TokenHistory = record {
      from_status = t.status;
      to_status = to;
      timestamp = now 0;
      action = action;
    } in
    if not (can_transition t.status to) then (t, some (invalid_transition t.status to)) else (
      stamp (now 2) to
          (record t { history = t.history ++ entry ∷ []; status = to; updated_at = now 1 }),
      none,
    )

-- `Fail`: the error is stored before the transition is tried.
unfoldable pub fail : (ℕ → ℕ) → Token → Option String → Token × Option TransitionError
unfolding transition
fail now t none = transition now t failed "fail"
fail now t (some message) =
    let e : TokenError = record { code = ""; message = message; stack = "" } in
    transition now (record t { error = some e }) failed "fail"

-- `Await`: no test of the diagram, and the history entry reads the status after it was set.
unfoldable pub await : (ℕ → ℕ) → Token → String → Token × Option TransitionError
await now t kind =
    let t' = record t { status = waiting; updated_at = now 0 } in
    let entry : TokenHistory = record {
      from_status = t'.status;
      to_status = waiting;
      timestamp = now 1;
      action = text_append "await:" kind;
    } in
    (record t' { history = t'.history ++ entry ∷ [] }, none)

unfoldable pub is_terminal : TokenStatus → Bool
is_terminal status =
    status_eq status completed || status_eq status failed || status_eq status terminated

-- The methods that clients call, each with its arguments.
pub data Op : Type 0 where
  start complete terminate suspend resume trigger : Op
  fail_with : Option String → Op
  await_for : String → Op

unfoldable pub apply : (ℕ → ℕ) → Token → Op → Token × Option TransitionError
unfolding transition fail await
apply now t start = transition now t active "start"
apply now t complete = transition now t completed "complete"
apply now t terminate = transition now t terminated "terminate"
apply now t suspend = transition now t suspended "suspend"
apply now t resume = transition now t active "resume"
apply now t trigger = transition now t active "trigger"
apply now t (fail_with err) = fail now t err
apply now t (await_for kind) = await now t kind

-- A client that makes calls one after another and goes on after an error. Each call has its clock.
unfoldable pub run : Token → List ((ℕ → ℕ) × Op) → Token
run t [] = t
run t ((now, op) ∷ ops) = run (apply now t op).0 ops

-- ===== src/Executor/Publisher.antt =====
-- Commands to the workers: `PublishCommand` of engine/internal/integration/nats/publisher.go, and
-- the loop around it in engine/internal/core/executor/delegate_expression.go.
use proctssor.Prelude.{
  ℕ, zero, suc, ◌+◌, String, ◌==◌, List, [], ◌∷◌, ◌++◌, Option, none, some, if◌then◌else◌,
}
use proctssor.Token.{Variables}

pub data CommandType : Type 0 where
  service_task user_task timer signal message : CommandType

-- `none` is the zero time. Both retry counts are small constants.
pub record WorkflowCommand : Type 0 where
  pub command_id : String
  pub command_type : CommandType
  pub instance_id : String
  pub token_id : String
  pub node_id : String
  pub service_name : String
  pub operation : String
  pub input_variables : Variables
  pub created_at : Option ℕ
  pub expires_at : Option ℕ
  pub retry_count : ℕ
  pub max_retries : ℕ

-- The commands handed to the transport so far, the refused ones too.
abbrev pub Sent : Type 0
Sent = List WorkflowCommand

-- `transport` stands for the JSON encoder and JetStream's `PublishMsg`: it answers in view of all
-- attempts before, and `some message` is an error.
pub record Publisher : Type 0 where
  pub timeout : ℕ
  pub transport : Sent → WorkflowCommand → Option String

abbrev or_now : Option ℕ → ℕ → ℕ
or_now none now = now
or_now (some t) now = t

-- What `PublishCommand` fills in: the identifier, the time, the expiry.
unfoldable pub prepare : ℕ → String → ℕ → WorkflowCommand → WorkflowCommand
prepare timeout fresh now cmd =
    let created = or_now cmd.created_at now in
    record cmd {
      command_id = if cmd.command_id == "" then fresh else cmd.command_id;
      created_at = some created;
      expires_at = some (or_now cmd.expires_at (created + timeout));
    }

-- `PublishCommand`: the command as it was changed in place, and the error.
unfoldable pub publish_command :
    Publisher → Sent → String → ℕ → WorkflowCommand → WorkflowCommand × Option String × Sent
publish_command p sent fresh now cmd =
    let cmd' = prepare p.timeout fresh now cmd in (cmd', p.transport sent cmd', sent ++ cmd' ∷ [])

-- The retry loop, with `left` attempts left. The k-th attempt has its own identifier and time.
unfoldable pub publish_with_retry :
    Publisher → Sent → (ℕ → String) → (ℕ → ℕ) → ℕ → ℕ → WorkflowCommand → Option String × Sent
publish_with_retry p sent fresh now k zero cmd = (none, sent)
publish_with_retry p sent fresh now k (suc left) cmd =
    let (cmd', fault, sent') = publish_command p sent (fresh k) (now k) cmd in
    let rest = publish_with_retry p sent' fresh now (suc k) left cmd' in
    elim fault [
      | none ↦ (none, sent')
      | some reason ↦ elim left [ zero ↦ (some reason, sent') | suc _ ↦ rest ]
    ]

-- ===== src/Lib.antt =====
-- The engine of proctssor runs BPMN processes: a parsed process becomes a graph, an instance
-- walks that graph with a token, each node is executed, and a saga undoes completed steps
-- when one fails. This library models the core of the engine (engine/internal/core and what
-- uses it) and proves what it promises.
--
-- The parts:
--
-- - Token.antt: engine/internal/core/statemachine, the token and its state machine. `apply`
--   is one call of a client (Start, Complete, Fail, Await, ...), `run` a sequence of calls.
-- - Bpmn.antt: engine/internal/core/bpmn. Bpmn/Elements and Bpmn/Process are the structures
--   of model.go, Bpmn/Graph is BuildGraph of graph.go with one function per loop and per case
--   of its switch, Bpmn/Graph/Queries its other methods, Bpmn/Validator the checks of
--   validator.go as functions to lists of errors and warnings.
-- - Execution.antt: ExecutionResult and ExecutionError of
--   engine/internal/core/statemachine/model.go.
-- - Api.antt: engine/internal/api/handlers. Api/Definitions is the table of process
--   definitions of engine/internal/integration/postgres/repository.go, Api/Processes the
--   handlers of processes.go over it, Api/Instances those of instances.go over
--   Instance/Service and Instance/Tasks; Api/Processes/Started has the repository as
--   StartInstance asks it.
-- - Executor.antt: engine/internal/core/executor. Executor/Node is ExecuteNode with one
--   function per kind of node, Executor/Delegate the parser of ${service.action},
--   Executor/Expression the evaluator of conditions of expression.go, which
--   Executor/Expression/Task puts in its place in a service task, Executor/Publisher the
--   command and PublishCommand of engine/internal/integration/nats/publisher.go with the
--   retry loop of delegate_expression.go.
-- - Instance.antt: engine/internal/service/instance_service.go. Instance/Store is the table
--   of instances of engine/internal/integration/postgres/repository.go, Instance/Service the
--   methods that clients call, Instance/Tasks the table of user tasks and the lists of that
--   file, Instance/Walk the loop executeInstance and the two methods that start it.
-- - Registry.antt: engine/internal/integration/registry/cache.go. Registry/Cache is LRUCache
--   with the methods that clients call and the background cleanup as steps, Registry/Cached
--   the repository that it wraps.
-- - Saga.antt: engine/internal/core/saga. Saga/Model is model.go, Saga/Orchestrator,
--   Saga/Execute and Saga/Compensate are orchestrator.go, Saga/ErrorHandler is
--   error_handler.go; Saga/Calls has the interfaces that the orchestrator calls.
-- - Timers.antt: engine/internal/integration/nats/timer.go, the table of timers with its
--   statements; Timers/Manager is the manager, whose tick reads the due timers and executes
--   each in a transaction that holds the lock of its row; whether a row can be scanned and
--   whether a connection is lost are parameters.
-- - Websocket.antt: engine/internal/api/websocket, the loop of hub.go as a step per event,
--   and what connection.go does with a client's channel and connection; a run is one schedule
--   of the goroutines.
-- - Workers.antt: the services that carry out commands, with the types that they share.
--   Workers/Consumer is internal/nats/consumer.go, the same file in each; Workers/Vault is
--   vault-service (storage.go and handler.go), Workers/Gitlab with its Handler and Service
--   gitlab-service (gitlab.go and handler.go), Workers/Jira with its Json, Client and Handler
--   jira-service (jira.go and handler.go), Workers/Notification notification-service
--   (handler.go). They receive what Executor/Publisher sends.
-- - Responses.antt: engine/internal/integration/nats/subscriber.go, the engine's reader of
--   what the workers answer: its channel, which holds 100 responses, and its dead letter
--   queue.
-- - Prelude.antt: lists, maps, results and tests that the parts share. Tests.antt: the
--   theorems at concrete inputs.
--
-- State is passed explicitly: a method that changes a structure through a pointer returns the
-- new structure beside its error. A call that leaves the modelled code (executor,
-- compensation handler, repository) goes to a function that is a field of a record, sees all
-- calls made before it, and is added to a trace, so that a theorem about every such record
-- covers every behaviour of the other side. Times come from a clock that is an argument,
-- identifiers that uuid.New makes are arguments. Go maps are association lists under text
-- keys, and where one may be nil and is written to (UpdateVariables) a flag tells it from an
-- empty one; where the source ranges over a map to copy it, no result depends on the order,
-- and the validator appends the warnings of its two ranges over a map in one order of many.
--
-- Loops over slices are structural recursion. The loop of executeInstance, which a process
-- with a cycle can keep running, is recursion on fuel (Instance/Walk.walk);
-- Instance/Walk/Totality says how much is enough. The retry loops recurse on the attempts
-- that are left: 3 for a command in the source, and one more than the configured number for a
-- webhook. A float64 is known by its bits, and what the standard library does with it is a
-- parameter: its order, its text and its conversions.
--
-- Not modelled: XML decoding, which is a parameter where a process is deployed; the SQL
-- statements but for those on process definitions, instances, user tasks and timers;
-- JetStream, gin and HTTP, the sockets below the hub, go-gitlab and logging, which are calls
-- of other libraries; that two fields may share one Go map; data races: each method is one
-- step.
pub mod Prelude
pub mod Token
pub mod Bpmn
pub mod Execution
pub mod Executor
pub mod Instance
pub mod Registry
pub mod Saga
pub mod Timers
pub mod Websocket
pub mod Workers
pub mod Responses
pub mod Api
pub mod Tests

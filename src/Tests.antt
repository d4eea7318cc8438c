-- ===== src/Tests.antt =====
-- The theorems on concrete inputs.
mod Samples
mod Tokens
mod Graphs
mod Sagas
mod Executors
mod Instances
mod Registries
mod Validators
mod Timers
mod Websockets
mod Workers
mod Responses
mod Apis
mod Tasks
mod Expressions

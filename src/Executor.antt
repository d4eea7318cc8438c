-- ===== src/Executor.antt =====
-- The execution of one node: engine/internal/core/executor.
pub mod Publisher
pub mod Delegate
pub mod Expression
pub mod Node
pub mod Retry
pub mod Gateways

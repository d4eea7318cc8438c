-- ===== src/Saga.antt =====
-- Sagas: engine/internal/core/saga (model.go, orchestrator.go, error_handler.go).
pub mod Model
pub mod Calls
pub mod Orchestrator
pub mod Compensate
pub mod Execute
pub mod ErrorHandler
pub mod Lifecycle

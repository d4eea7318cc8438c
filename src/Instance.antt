-- ===== src/Instance.antt =====
-- Process instances: engine/internal/service/instance_service.go, on the table of instances of
-- engine/internal/integration/postgres/repository.go.
pub mod Store
pub mod Walk
pub mod Service
pub mod Status
pub mod Tasks
pub mod Ending

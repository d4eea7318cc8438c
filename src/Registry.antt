-- ===== src/Registry.antt =====
-- The cache of the service registry: engine/internal/integration/registry/cache.go.
pub mod Cache
pub mod Cached

-- ===== src/Pool.antt =====
-- internal/pool: the registry of browser nodes (types.go, registry.go) and the manager that keeps the
-- number of ready nodes at its target (manager.go).
pub mod Registry
pub mod Nodes
pub mod Manager
pub mod Causes
pub mod Safety
pub mod Scanning
pub mod Provisioning
pub mod Capacity
mod Tests

-- ===== src/Policy.antt =====
-- Shreni's own use of the engine: its lifecycle (src/policy/lifecycle) and its leases (src/policy/sthapathi).
pub mod Leases
pub mod Guards
pub mod Lifecycle

-- ===== src/TaskGraph.antt =====
-- The task-graph engine (src/taskgraph): its rows, its lifecycle rules and its transactions.
pub mod Types
pub mod Errors
pub mod Store
pub mod Lifecycle
pub mod Client
pub mod Containers
pub mod Moves
pub mod Invariant
pub mod Ready
pub mod Sweep
pub mod Claims
pub mod Deps
pub mod Tasks
pub mod Requests
pub mod Validators
pub mod Plans
pub mod System

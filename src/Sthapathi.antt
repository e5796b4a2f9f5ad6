-- ===== src/Sthapathi.antt =====
-- sthapathi: the orchestrator that runs a Kshetra's worker.
pub mod Phases
pub mod Watchdog
pub mod Scheduler
pub mod Retry
pub mod PrFollowup
pub mod FollowupLoop
pub mod CycleErrors

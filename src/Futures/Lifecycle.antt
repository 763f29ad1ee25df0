-- ===== src/Futures/Lifecycle.antt =====
-- What every operation of scheduler.go and runs.go does to futures_runs, as one step relation.
pub mod Edits
pub mod Steps
pub mod Runs
pub mod Creation
pub mod Invariant
pub mod Slots
pub mod Ids
pub mod Quota
pub mod Histories
pub mod Claims
pub mod Expiry
pub mod Completion
pub mod Diagram

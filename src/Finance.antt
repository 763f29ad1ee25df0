-- ===== src/Finance.antt =====
-- service/finance: the verdicts of research reports, the budget of calls and the runs.
pub mod Verdict
pub mod Snapshot
pub mod Calls
pub mod Runs
mod Scenarios

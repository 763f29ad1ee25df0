-- ===== src/Futures.antt =====
-- service/futures: research runs, their scheduler, the notification outbox and the daily budget.
pub mod Store
pub mod Notify
pub mod Run
pub mod Create
pub mod Idempotency
pub mod Outbox
pub mod Budget
pub mod Hypothesis
mod Lifecycle
mod Scenarios

-- ===== src/Futures/Run.antt =====
-- The life of a research run: service/futures/scheduler.go and runs.go.
mod Rows
mod Scheduler
mod Reports
unfoldable pub use Rows.*
unfoldable pub use Scheduler.*
unfoldable pub use Reports.*

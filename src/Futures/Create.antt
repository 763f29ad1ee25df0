-- ===== src/Futures/Create.antt =====
-- service/futures/domain_runs.go: CreateRun, with the idempotency keys of domain.go and
-- deletion_idempotency.go.
mod Keys
mod Rows
mod Admission
unfoldable pub use Keys.*
unfoldable pub use Rows.*
unfoldable pub use Admission.*

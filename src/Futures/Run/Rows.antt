-- ===== src/Futures/Run/Rows.antt =====
-- What scheduler.go and runs.go share: the conditions on a row of futures_runs, and updates that
-- must affect one row.
use zhigu.Base.{
  ℕ, Bool, true, false, ◌&&◌, String, str_eq, count, update, ◌==◌, if◌then◌else◌, is_null, Result,
  ok, err, Error,
}
use zhigu.Futures.Store.{
  Status, queued, running, verifying, succeeded, failed, canceling, canceled, Run, Identity, Store,
}

-- futuresLeaseDuration and futuresExecutionTimeout, in nanoseconds.
abbrev pub lease_duration : ℕ
lease_duration = 30_000_000_000

abbrev pub execution_timeout : ℕ
execution_timeout = 180_000_000_000

-- `status IN ('running','verifying')`.
abbrev pub is_executing : Status → Bool
is_executing running = true
is_executing verifying = true
is_executing _ = false

abbrev pub is_queued : Status → Bool
is_queued queued = true
is_queued _ = false

abbrev pub is_canceling : Status → Bool
is_canceling canceling = true
is_canceling _ = false

-- The statuses that CancelRun turns into `canceling`.
abbrev pub in_flight : Status → Bool
in_flight canceling = true
in_flight st = is_executing st

abbrev pub is_terminal : Status → Bool
is_terminal succeeded = true
is_terminal failed = true
is_terminal canceled = true
is_terminal _ = false

-- `id=? AND owner_id=? AND mode=? AND deleted_at IS NULL`.
abbrev pub owned : Identity → String → Run → Bool
owned me run_id r =
    str_eq r.id run_id && r.owner_id == me.owner_id && str_eq r.mode me.mode && is_null r.deleted_at

-- `res.RowsAffected != 1` is refused.
abbrev pub update_one : (Run → Bool) → (Run → Run) → Store → Result Store
update_one test f s =
    if count test s.runs == 1
    then ok (record s { runs = update test f s.runs })
    else err Error.revision_conflict

-- The rows that count against the two slots.
abbrev pub is_active : Run → Bool
is_active r = is_executing r.status && is_null r.deleted_at

-- The row is executing under this generation.
abbrev pub executing_as : Identity → String → ℕ → Run → Bool
executing_as me run_id generation r =
    owned me run_id r && r.generation == generation && is_executing r.status

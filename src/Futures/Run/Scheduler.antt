-- ===== src/Futures/Run/Scheduler.antt =====
-- service/futures/scheduler.go: claiming, leasing, failing and expiring a research run.
use zhigu.Base.{
  ℕ, ◌+◌, Bool, false, not, ◌&&◌, ◌||◌, Option, none, some, List, String, ◌<>◌, str_eq, count,
  update, least, leb, ◌==◌, if◌then◌else◌, is_null, null_lt, Result, ok, err, Error, ◌>>=◌, ◌>>◌,
  guard,
}
use zhigu.Futures.Store.{
  running, failed, canceled, Stage, evidence, support, challenge, verify, complete, Run, Identity,
  Store,
}
use zhigu.Futures.Notify.{write_notification}
use zhigu.Futures.Run.Rows.{
  lease_duration, execution_timeout, is_executing, is_queued, is_canceling, owned, executing_as,
  update_one, is_active,
}

-- ClaimQueuedRun.

abbrev pub claimable : (String → Bool) → Run → Bool
claimable locked r = is_queued r.status && is_null r.deleted_at && not (locked r.id)

-- `ORDER BY created_at`, to which gorm's First adds the primary key, under the database's collation.
abbrev pub earliest : (String → String → Bool) → (Run → Bool) → List Run → Option Run
earliest id_before = least (λ r. r.created_at) (λ r t. id_before r.id t.id)

abbrev pub claim_target : Run → Run → Bool
claim_target run r = str_eq r.id run.id && is_queued r.status && r.generation == run.generation

abbrev pub claim_row : String → ℕ → Run → Run
claim_row lease_owner now r = record r {
  status = running;
  stage = evidence;
  lease_until = some (now + lease_duration);
  lease_owner = some lease_owner;
  deadline_at = some (now + execution_timeout);
  generation = r.generation + 1;
  version = r.version + 1;
  updated_at = now;
}

-- The value that is returned; its version and updated_at are those that were read.
abbrev pub claimed : String → ℕ → Run → Run
claimed lease_owner now r = record (claim_row lease_owner now r) {
  version = r.version;
  updated_at = r.updated_at;
}

unfoldable pub claim_found : String → ℕ → Run → Store → Result (Run × Store)
claim_found lease_owner now run s = do
  t ← update_one (claim_target run) (claim_row lease_owner now) s
  ok (claimed lease_owner now run, t)

-- `locked` tells the rows that another transaction holds, which SKIP LOCKED leaves out.
unfoldable pub claim_queued_run :
    (String → String → Bool) → (String → Bool) → String → ℕ → Store → Result (Run × Store)
claim_queued_run id_before locked lease_owner now s =
    if leb 2 (count is_active s.runs)
    then err Error.quota_exceeded
    else elim (earliest id_before (claimable locked) s.runs) [
      | none ↦ err Error.not_found
      | some run ↦ claim_found lease_owner now run s
    ]

-- RenewRunLease, SetRunStage, FailRun, AcknowledgeCanceledRun.

abbrev pub leased_to : String → Run → Bool
leased_to lease_owner r = elim r.lease_owner [ none ↦ false | some o ↦ str_eq o lease_owner ]

abbrev pub renew_row : ℕ → Run → Run
renew_row now r = record r { lease_until = some (now + lease_duration); updated_at = now }

unfoldable pub renew_run_lease : Identity → String → String → ℕ → ℕ → Store → Result Store
renew_run_lease me run_id lease_owner generation now =
    update_one (λ r. executing_as me run_id generation r && leased_to lease_owner r) (renew_row now)

abbrev pub stage_row : Stage → ℕ → Run → Run
stage_row st now r = record r { stage = st; updated_at = now }

-- oneOfRunStage: the stages that a caller may name.
abbrev pub one_of_run_stage : String → Option Stage
one_of_run_stage stage =
    if str_eq stage "evidence"
    then some evidence
    else if str_eq stage "support"
    then some support
    else if str_eq stage "challenge"
    then some challenge
    else if str_eq stage "verify"
    then some verify
    else if str_eq stage "complete"
    then some complete
    else none

unfoldable pub set_run_stage : Identity → String → ℕ → String → ℕ → Store → Result Store
set_run_stage me run_id generation stage now s = elim (one_of_run_stage stage) [
  | none ↦ err Error.invalid_input
  | some st ↦ update_one (executing_as me run_id generation) (stage_row st now) s
]

abbrev pub fail_target : Identity → String → ℕ → Run → Bool
fail_target me run_id generation r = executing_as me run_id generation r && not r.cancel_requested

-- A row that reaches `failed`; CompleteRun and the others have their own.
abbrev pub fail_row : String → ℕ → Run → Run
fail_row code now r = record r {
  status = failed;
  stage = complete;
  failure_code = some code;
  lease_until = none;
  lease_owner = none;
  updated_at = now;
}

unfoldable pub fail_run : String → Identity → String → ℕ → String → ℕ → Store → Result Store
fail_run outbox_id me run_id generation code now s = do
  guard (not (str_eq code "")) Error.invalid_input
  t ← update_one (fail_target me run_id generation) (fail_row code now) s
  write_notification outbox_id me "run_failed" run_id 1 ("run." <> run_id <> ".failed") now t

abbrev pub cancel_row : ℕ → Run → Run
cancel_row now r = record r {
  status = canceled;
  stage = complete;
  lease_until = none;
  lease_owner = none;
  updated_at = now;
}

unfoldable pub acknowledge_canceled_run : Identity → String → ℕ → Store → Result Store
acknowledge_canceled_run me run_id now =
    update_one (λ r. owned me run_id r && is_canceling r.status) (cancel_row now)

-- ExpireStaleRuns.

abbrev pub queue_expired : ℕ → Run → Bool
queue_expired now r = is_queued r.status && null_lt r.deadline_at now && is_null r.deleted_at

abbrev pub overdue : ℕ → Run → Bool
overdue now r = null_lt r.lease_until now || null_lt r.deadline_at now

abbrev pub cancel_expired : ℕ → Run → Bool
cancel_expired now r = is_canceling r.status && overdue now r && is_null r.deleted_at

abbrev pub execution_expired : ℕ → Run → Bool
execution_expired now r = is_executing r.status && overdue now r && is_null r.deleted_at

unfoldable pub expire_stale_runs : ℕ → Store → Store
expire_stale_runs now s =
    let one = update (queue_expired now) (fail_row "FUTURES_QUEUE_TIMEOUT" now) s.runs in
    let two = update (cancel_expired now) (cancel_row now) one in
    record s {
      runs = update (execution_expired now) (fail_row "FUTURES_EXECUTION_TIMEOUT" now) two;
    }

-- ===== src/Finance/Runs.antt =====
-- service/finance/run_state.go and worker.go: the runs of the finance service between transactions.
pub mod Versions
use zhigu.Base.{
  ℕ, ◌+◌, ◌*◌, ◌<◌, Bool, true, false, not, ◌&&◌, ◌||◌, Option, none, some, List, [], ◌∷◌, String,
  str_eq, count, first, update, leb, ltb, null_lt, null_gt, is_null, ◌==◌, if◌then◌else◌, Result,
  ok, err, Error, ◌>>=◌, ◌>>◌, guard, commit,
}
use zhigu.Finance.Snapshot.{SnapshotJson, BudgetSnapshot, parse_budget_snapshot, or_default}

-- The constants Status….
pub data RunStatus : Type 0 where
  queued researching verifying completed incomplete failed canceling canceled : RunStatus

pub record ResearchRun : Type 0 where
  pub id : String
  pub status : RunStatus
  pub stage : String
  pub budget_snapshot : SnapshotJson
  pub deadline_at : Option ℕ
  pub lease_owner : Option String
  pub lease_until : Option ℕ
  pub version : ℕ
  pub deleted_at : Option ℕ
  pub created_at : ℕ
  pub updated_at : ℕ

abbrev pub status_queued : RunStatus → Bool
status_queued queued = true
status_queued _ = false

abbrev pub status_executing : RunStatus → Bool
status_executing researching = true
status_executing verifying = true
status_executing _ = false

abbrev pub status_canceling : RunStatus → Bool
status_canceling canceling = true
status_canceling _ = false

abbrev pub status_canceled : RunStatus → Bool
status_canceled canceled = true
status_canceled _ = false

abbrev pub run_is_canceled : ResearchRun → Bool
run_is_canceled r =
    not (is_null r.deleted_at) || status_canceling r.status || status_canceled r.status

unfoldable pub run_allows_tools_at : ResearchRun → ℕ → Bool
run_allows_tools_at r now =
    is_null r.deleted_at
    && (status_queued r.status || status_executing r.status)
    && (is_null r.deadline_at || null_gt r.deadline_at now)

abbrev pub second : ℕ
second = 1_000_000_000

-- RunTimeout, QueueTimeout and LeaseTTL.
abbrev pub lease_ttl : ℕ
lease_ttl = 15 * second

abbrev pub snapshot_timeouts : ResearchRun → ℕ × ℕ
snapshot_timeouts r =
    let snap = parse_budget_snapshot r.budget_snapshot in
    (
      or_default 180 snap.run_timeout_seconds * second,
      or_default 30 snap.queue_timeout_seconds * second,
    )

abbrev pub is_run : String → ResearchRun → Bool
is_run run_id r = str_eq r.id run_id

abbrev pub is_visible : ResearchRun → Bool
is_visible r = is_null r.deleted_at

-- What a caller of casUpdateRun sets: `columns` are those beside the version and updated_at, which it may
-- leave out, and the id, which no write changes.
pub record RunUpdates : Type 0 where
  pub columns : ResearchRun → ResearchRun
  pub version : Option ℕ
  pub updated_at : Option ℕ

-- Updates that leave the version and the time to casUpdateRun.
abbrev pub plain : (ResearchRun → ResearchRun) → RunUpdates
plain columns = record { columns = columns; version = none; updated_at = none }

abbrev pub given_or : ℕ → Option ℕ → ℕ
given_or default none = default
given_or default (some n) = n

-- The compare-and-swap; `allowed` is true of any status if the list is empty.
abbrev pub cas_target : String → ℕ → (RunStatus → Bool) → ResearchRun → Bool
cas_target run_id expected allowed r =
    is_run run_id r && r.version == expected && is_visible r && allowed r.status

abbrev pub cas_row : ℕ → ℕ → RunUpdates → ResearchRun → ResearchRun
cas_row expected now updates r = record (updates.columns r) {
  id = r.id;
  version = given_or (expected + 1) updates.version;
  updated_at = given_or now updates.updated_at;
}

unfoldable pub cas_update_run :
    String → ℕ → (RunStatus → Bool) → RunUpdates → ℕ → List ResearchRun → Result (List ResearchRun)
cas_update_run run_id expected allowed updates now rs =
    if count (cas_target run_id expected allowed) rs == 0
    then err Error.run_closed
    else ok (update (cas_target run_id expected allowed) (cas_row expected now updates) rs)

-- The loop over the rows that were read.
abbrev pub for_each :
    (ResearchRun → List ResearchRun → List ResearchRun)
    → List ResearchRun
    → List ResearchRun
    → List ResearchRun
for_each body [] rs = rs
for_each body (r ∷ found) rs = for_each body found (body r rs)

abbrev pub found : (ResearchRun → Bool) → List ResearchRun → List ResearchRun
found test [] = []
found test (r ∷ rs) = let rest = found test rs in if test r then r ∷ rest else rest

abbrev pub closed_row : RunStatus → String → ℕ → ResearchRun → ResearchRun
closed_row status stage now r = record r {
  status = status;
  stage = stage;
  updated_at = now;
  lease_owner = none;
  lease_until = none;
  version = r.version + 1;
}

abbrev pub fail_timed_out : ℕ → ResearchRun → List ResearchRun → List ResearchRun
fail_timed_out now run rs =
    if ltb now (run.created_at + (snapshot_timeouts run).1)
    then rs
    else update (λ r. is_run run.id r && status_queued r.status)
        (closed_row failed "queue_timeout" now) rs

unfoldable pub fail_queue_timeouts : ℕ → List ResearchRun → List ResearchRun
fail_queue_timeouts now rs =
    for_each (fail_timed_out now) (found (λ r. status_queued r.status && is_visible r) rs) rs

abbrev pub reap : ℕ → ResearchRun → List ResearchRun → List ResearchRun
reap now run rs =
    update (λ r. is_run run.id r && r.version == run.version)
      (closed_row incomplete "lease_lost" now) rs

unfoldable pub reap_expired_leases : ℕ → List ResearchRun → List ResearchRun
reap_expired_leases now rs =
    for_each (reap now)
      (found (λ r. status_executing r.status && null_lt r.lease_until now && is_visible r) rs) rs

abbrev pub renew_target : String → ResearchRun → Bool
renew_target run_id r = is_run run_id r && not (is_null r.lease_owner) && status_executing r.status

unfoldable pub renew_lease : String → ℕ → List ResearchRun → Result (List ResearchRun)
renew_lease run_id now rs =
    if count (renew_target run_id) rs == 0
    then err Error.lease_lost
    else ok (
        update (renew_target run_id)
          (λ r. record r { lease_until = some (now + lease_ttl); updated_at = now }) rs)

abbrev pub cancel_target : String → ResearchRun → Bool
cancel_target run_id r = is_run run_id r && status_canceling r.status

abbrev pub delete_canceled : ResearchRun → ℕ → List ResearchRun → List ResearchRun
delete_canceled run now rs =
    if str_eq run.stage "deleting"
    then update (is_run run.id) (λ r. record r { deleted_at = some now }) rs
    else rs

-- `acked` tells whether the executor confirmed every task of the run, or knew none.
unfoldable pub finalize_cancel : Bool → String → ℕ → List ResearchRun → Result (List ResearchRun)
finalize_cancel acked run_id now rs = elim (first (is_run run_id) rs) [
  | none ↦ err Error.not_found
  | some run ↦
      guard (acked || not (null_gt run.lease_until now)) Error.cancel_in_progress
      >> guard (not (count (cancel_target run_id) rs == 0)) Error.run_closed
      >> ok (
          delete_canceled run now
            (update (cancel_target run_id) (closed_row canceled "canceled" now) rs))
]

unfoldable pub converge_cancels : (String → Bool) → ℕ → List ResearchRun → List ResearchRun
converge_cancels acked now rs =
    for_each (λ run qs. commit qs (finalize_cancel (acked run.id) run.id now qs))
      (found (λ r. status_canceling r.status) rs) rs

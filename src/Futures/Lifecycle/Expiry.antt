-- ===== src/Futures/Lifecycle/Expiry.antt =====
-- What ExpireStaleRuns leaves behind, and how a renewed lease protects a run.
use zhigu.Base.{
  ℕ, ◌+◌, ◌≤◌, ◌≡◌, refl, ap, ap₂, Bool, true, false, ◌&&◌, ◌||◌, List, [], ◌∷◌, map, String,
  update, update-All, All, if◌then◌else◌, null_lt, ok, arith,
}
use zhigu.Futures.Store.{Run, Store, Identity}
use zhigu.Futures.Run.{
  lease_duration, executing_as, leased_to, renew_run_lease, fail_row, cancel_row, queue_expired,
  cancel_expired, execution_expired, expire_stale_runs,
}
use zhigu.Futures.Lifecycle.Runs.{update_one-runs}

-- One pass over a row: the fate of a run whose time is over.
abbrev pub settle_row : ℕ → Run → Run
settle_row now r =
    if queue_expired now r
    then fail_row "FUTURES_QUEUE_TIMEOUT" now r
    else if cancel_expired now r
    then cancel_row now r
    else if execution_expired now r
    then fail_row "FUTURES_EXECUTION_TIMEOUT" now r
    else r

settle_rows :
    (now : ℕ) (rs : List Run)
    → update (execution_expired now) (fail_row "FUTURES_EXECUTION_TIMEOUT" now) (
        update
          (cancel_expired now)
          (cancel_row now)
          (update (queue_expired now) (fail_row "FUTURES_QUEUE_TIMEOUT" now) rs))
      ≡ map (settle_row now) rs
unfolding update
settle_rows now [] = refl
settle_rows now (r ∷ rs) = ap₂ ◌∷◌ (ground arith) (settle_rows now rs)

-- The three updates amount to one pass: a visible queued run past its deadline fails, a canceling one
-- past its lease or deadline is canceled, an executing one past either fails, and every other run is
-- left as it was. No table but futures_runs changes.
pub expire_stale_runs-map :
    (now : ℕ) (s : Store)
    → expire_stale_runs now s ≡ record s { runs = map (settle_row now) s.runs }
unfolding expire_stale_runs
expire_stale_runs-map now s = ap (λ rs. record s { runs = rs }) (settle_rows now s.runs)

abbrev pub is_stale : ℕ → Run → Bool
is_stale now r = queue_expired now r || cancel_expired now r || execution_expired now r

-- A run whose lease was renewed at `now` outlives every expiry until the lease ends, unless its own
-- deadline has passed.
pub renew_run_lease-protects :
    (me : Identity) (run_id lease_owner : String) (generation now later : ℕ) (s : Store) {t : Store}
    → renew_run_lease me run_id lease_owner generation now s ≡ ok t
    → later ≤ now + lease_duration
    → All
        (λ r.
          (executing_as me run_id generation r && leased_to lease_owner r) ≡ true
          → null_lt r.deadline_at later ≡ false
          → settle_row later r ≡ r)
        t.runs
unfolding renew_run_lease
renew_run_lease-protects me run_id lease_owner generation now later s h le =
    let (_, moved) = update_one-runs _ _ s h in
    rw moved (update-All _ _ _ s.runs (λ r e live d. ground arith) (λ r e live d. cc))

-- ===== src/Futures/Lifecycle/Edits.antt =====
-- The updates that scheduler.go and runs.go make, with the facts that their guards establish.
use zhigu.Base.{ℕ, ◌<◌, ◌≡◌, true, ◌&&◌, List, ◌∷◌, String, count, update, All}
use zhigu.Futures.Store.{Stage, Report, Run, Identity, Draft}
use zhigu.Futures.Create.{RunCreateInput, new_run, same_run, is_open, created_on, beijing_day}
use zhigu.Futures.Run.{
  is_queued, is_canceling, owned, executing_as, is_active, claim_target, claim_row, leased_to,
  renew_row, stage_row, fail_target, fail_row, cancel_row, queue_expired, cancel_expired,
  execution_expired, complete_target, complete_row, cancel_queued_row, request_cancel_row,
  in_flight,
}

abbrev pub expire_edit : ℕ → List Run → List Run
expire_edit now rs = update (execution_expired now) (fail_row "FUTURES_EXECUTION_TIMEOUT" now) (
    update (cancel_expired now) (cancel_row now)
      (update (queue_expired now) (fail_row "FUTURES_QUEUE_TIMEOUT" now) rs))

-- One committed transaction, as futures_runs sees it; Shanghai is `offset` ahead of UTC.
pub data Edit (offset : ℕ) (rs : List Run) : List Run → Type 0 where
  stay : Edit offset rs rs
  claims :
      (lease_owner : String) (now : ℕ) (run : Run)
      → count is_active rs < 2
      → count (claim_target run) rs ≡ 1
      → Edit offset rs (update (claim_target run) (claim_row lease_owner now) rs)
  creates :
      (run_id : String) (me : Identity) (key : String) (input : RunCreateInput) (draft : Draft)
      (now : ℕ)
      → count (same_run (new_run run_id me key input draft now)) rs ≡ 0
      → count (is_open me) rs ≡ 0
      → count (created_on offset (beijing_day offset now) me) rs < 5
      → Edit offset rs (new_run run_id me key input draft now ∷ rs)
  renews :
      (me : Identity) (run_id lease_owner : String) (generation now : ℕ)
      → Edit offset rs (
          update
            (λ r. executing_as me run_id generation r && leased_to lease_owner r)
            (renew_row now)
            rs)
  stages :
      (me : Identity) (run_id : String) (generation : ℕ) (st : Stage) (now : ℕ)
      → Edit offset rs (update (executing_as me run_id generation) (stage_row st now) rs)
  fails :
      (me : Identity) (run_id : String) (generation : ℕ) (code : String) (now : ℕ)
      → Edit offset rs (update (fail_target me run_id generation) (fail_row code now) rs)
  acknowledges :
      (me : Identity) (run_id : String) (now : ℕ)
      → Edit offset rs
          (update (λ r. owned me run_id r && is_canceling r.status) (cancel_row now) rs)
  expires : (now : ℕ) → Edit offset rs (expire_edit now rs)
  completes :
      (me : Identity) (run_id : String) (generation : ℕ) (report : Report) (now : ℕ)
      → Edit offset rs
          (update (complete_target me run_id generation now) (complete_row report now) rs)
  cancels_queued :
      (me : Identity) (run_id : String) (now : ℕ)
      → Edit offset rs
          (update (λ r. owned me run_id r && is_queued r.status) (cancel_queued_row now) rs)
  requests_cancel :
      (me : Identity) (run_id : String) (now : ℕ)
      → All (λ r. owned me run_id r ≡ true → in_flight r.status ≡ true) rs
      → Edit offset rs (update (owned me run_id) (request_cancel_row now) rs)

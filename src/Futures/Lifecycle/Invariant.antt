-- ===== src/Futures/Lifecycle/Invariant.antt =====
-- What holds of every research run between two transactions.
use zhigu.Base.{
  is_some, ℕ, ◌≡◌, Bool, true, false, none, List, All, All-update, All-update_known, arith,
}
use zhigu.Futures.Store.{
  Status, Run, Store, queued, succeeded, failed, canceling, canceled, complete,
}
use zhigu.Futures.Run.{
  owned, is_executing, in_flight, is_terminal, fail_row, cancel_row, queue_expired, cancel_expired,
  execution_expired,
}
use zhigu.Futures.Lifecycle.Edits.{
  Edit, stay, claims, creates, renews, stages, fails, acknowledges, expires, completes,
  cancels_queued, requests_cancel, expire_edit,
}
use zhigu.Futures.Lifecycle.Steps.{Step, Step-Edit}

-- CancelRun leaves its mark on these.
abbrev pub is_withdrawn : Status → Bool
is_withdrawn canceling = true
is_withdrawn canceled = true
is_withdrawn _ = false

-- A run is claimed at most once: its generation is 1 until then, and 2 from then on.
pub record RowInv (r : Run) : Type 0 where
  pub unclaimed : r.status ≡ queued → (r.generation ≡ 1) × (r.lease_owner ≡ none)
  pub claimed_once : is_executing r.status ≡ true → r.generation ≡ 2
  pub leased :
      is_executing r.status ≡ true
      → (is_some r.lease_until ≡ true)
        × (is_some r.lease_owner ≡ true)
        × (is_some r.deadline_at ≡ true)
  pub withdrawn : r.cancel_requested ≡ is_withdrawn r.status
  pub finished : is_terminal r.status ≡ true → r.stage ≡ complete
  pub failure_coded : r.status ≡ failed → is_some r.failure_code ≡ true
  pub failure_only : is_some r.failure_code ≡ true → r.status ≡ failed
  pub reported : r.status ≡ succeeded → is_some r.report ≡ true
  pub reported_only : is_some r.report ≡ true → r.status ≡ succeeded

expire_edit-RowInv : (now : ℕ) (rs : List Run) → All RowInv rs → All RowInv (expire_edit now rs)
expire_edit-RowInv now rs h =
    All-update RowInv (execution_expired now) (fail_row "FUTURES_EXECUTION_TIMEOUT" now) _
      (λ r e v. ground arith)
      (All-update RowInv (cancel_expired now) (cancel_row now) _ (λ r e v. ground arith)
        (All-update RowInv (queue_expired now) (fail_row "FUTURES_QUEUE_TIMEOUT" now) rs
          (λ r e v. ground arith) h))

Edit-RowInv : {offset : ℕ} {rs qs : List Run} → Edit offset rs qs → All RowInv rs → All RowInv qs
Edit-RowInv stay h = h
Edit-RowInv {rs} (claims lease_owner now run free one) h =
    All-update RowInv _ _ rs (λ r e v. ground arith) h
Edit-RowInv (creates run_id me key input draft now fresh free today) h = (ground arith, h)
Edit-RowInv {rs} (renews me run_id lease_owner generation now) h =
    All-update RowInv _ _ rs (λ r e v. ground arith) h
Edit-RowInv {rs} (stages me run_id generation st now) h =
    All-update RowInv _ _ rs (λ r e v. ground arith) h
Edit-RowInv {rs} (fails me run_id generation code now) h =
    All-update RowInv _ _ rs (λ r e v. ground arith) h
Edit-RowInv {rs} (acknowledges me run_id now) h = All-update RowInv _ _ rs (λ r e v. ground arith) h
Edit-RowInv {rs} (expires now) h = expire_edit-RowInv now rs h
Edit-RowInv {rs} (completes me run_id generation report now) h =
    All-update RowInv _ _ rs (λ r e v. ground arith) h
Edit-RowInv {rs} (cancels_queued me run_id now) h =
    All-update RowInv _ _ rs (λ r e v. ground arith) h
Edit-RowInv {rs} (requests_cancel me run_id now live) h =
    All-update_known (λ r. owned me run_id r ≡ true → in_flight r.status ≡ true) RowInv _ _ rs
      (λ r e q v. ground (arith, q e)) live h

-- Every transaction keeps the invariant of every run.
pub Step-RowInv :
    {offset : ℕ} {s t : Store} → Step offset s t → All RowInv s.runs → All RowInv t.runs
Step-RowInv st h = Edit-RowInv (Step-Edit st) h

-- ===== src/Futures/Lifecycle/Slots.antt =====
-- The two execution slots.
use zhigu.Base.{
  ℕ, ◌≤◌, ◌≡◌, Bool, true, List, count, update, count-update-le, count-update_affected, arith,
}
use native.Mathlib.Nat.{le_trans}
use zhigu.Futures.Store.{Run, Store}
use zhigu.Futures.Run.{is_active, claim_target, claim_row}
use zhigu.Futures.Lifecycle.Edits.{
  Edit, stay, claims, creates, renews, stages, fails, acknowledges, expires, completes,
  cancels_queued, requests_cancel,
}
use zhigu.Futures.Lifecycle.Steps.{Step, Step-Edit}

-- An update that makes no row active takes no slot.
keeps_slots :
    (test : Run → Bool) (f : Run → Run) (rs : List Run)
    → ((r : Run) → test r ≡ true → is_active (f r) ≡ true → is_active r ≡ true)
    → count is_active rs ≤ 2
    → count is_active (update test f rs) ≤ 2
keeps_slots test f rs keep h = le_trans (count-update-le is_active test f rs keep) h

pub Edit-slots :
    {offset : ℕ} {rs qs : List Run}
    → Edit offset rs qs
    → count is_active rs ≤ 2
    → count is_active qs ≤ 2
unfolding count
Edit-slots stay h = h
Edit-slots {rs} (claims lease_owner now run free one) h =
    omega (
      arith,
      one,
      count-update_affected is_active (claim_target run) (claim_row lease_owner now) rs,
    )
Edit-slots (creates run_id me key input draft now fresh free today) h = ground arith
Edit-slots {rs} (expires now) h =
    keeps_slots _ _ _ (λ r e p. ground arith)
      (keeps_slots _ _ _ (λ r e p. ground arith) (keeps_slots _ _ rs (λ r e p. ground arith) h))
Edit-slots {rs} (renews me run_id lease_owner generation now) h =
    keeps_slots _ _ rs (λ r e p. ground arith) h
Edit-slots {rs} (stages me run_id generation st now) h =
    keeps_slots _ _ rs (λ r e p. ground arith) h
Edit-slots {rs} (fails me run_id generation code now) h =
    keeps_slots _ _ rs (λ r e p. ground arith) h
Edit-slots {rs} (acknowledges me run_id now) h = keeps_slots _ _ rs (λ r e p. ground arith) h
Edit-slots {rs} (completes me run_id generation report now) h =
    keeps_slots _ _ rs (λ r e p. ground arith) h
Edit-slots {rs} (cancels_queued me run_id now) h = keeps_slots _ _ rs (λ r e p. ground arith) h
Edit-slots {rs} (requests_cancel me run_id now live) h =
    keeps_slots _ _ rs (λ r e p. ground arith) h

-- No transaction brings the running and verifying runs above two.
pub Step-slots :
    {offset : ℕ} {s t : Store}
    → Step offset s t
    → count is_active s.runs ≤ 2
    → count is_active t.runs ≤ 2
Step-slots st h = Edit-slots (Step-Edit st) h

-- ===== src/Futures/Lifecycle/Ids.antt =====
-- The primary key of futures_runs.
use native.Mathlib.Nat.{le_trans}
use zhigu.Base.{
  ℕ, ◌≤◌, ◌≡◌, refl, subst, inl, inr, Bool, true, List, ◌∷◌, String, str_eq, eq_iff, count,
  count_mono, count-update-le, update, arith, Bool-cases,
}
use zhigu.Futures.Store.{Run, Store}
use zhigu.Futures.Create.{new_run, same_run}
use zhigu.Futures.Lifecycle.Edits.{
  Edit, stay, claims, creates, renews, stages, fails, acknowledges, expires, completes,
  cancels_queued, requests_cancel,
}
use zhigu.Futures.Lifecycle.Steps.{Step, Step-Edit}

abbrev pub has_id : String → Run → Bool
has_id i r = str_eq r.id i

-- Run ids are the primary key.
abbrev pub Distinct : List Run → Type 0
Distinct rs = (i : String) → count (has_id i) rs ≤ 1

keeps_ids :
    (i : String) (test : Run → Bool) (f : Run → Run) (rs : List Run)
    → ((r : Run) → (f r).id ≡ r.id)
    → count (has_id i) rs ≤ 1
    → count (has_id i) (update test f rs) ≤ 1
keeps_ids i test f rs same h =
    le_trans
      (count-update-le (has_id i) test f rs (λ r e p. subst (λ j. str_eq j i ≡ true) (same r) p)) h

creates-ids :
    (i : String) (r : Run) (rs : List Run)
    → count (same_run r) rs ≡ 0
    → count (has_id i) rs ≤ 1
    → count (has_id i) (r ∷ rs) ≤ 1
unfolding count
creates-ids i r rs fresh h = elim (Bool-cases (has_id i r)) [
  | inl e ↦ ground (
    arith,
    count_mono (has_id i) (same_run r) rs
        (λ q k. ground (arith, eq_iff q.id i, eq_iff r.id i, eq_iff r.id q.id)),
  )
  | inr e ↦ ground arith
]

Edit-Distinct : {offset : ℕ} {rs qs : List Run} → Edit offset rs qs → Distinct rs → Distinct qs
Edit-Distinct stay d i = d i
Edit-Distinct {rs} (creates run_id me key input draft now fresh free today) d i =
    creates-ids i (new_run run_id me key input draft now) rs fresh (d i)
Edit-Distinct {rs} (expires now) d i =
    keeps_ids i _ _ _ (λ r. refl)
      (keeps_ids i _ _ _ (λ r. refl) (keeps_ids i _ _ rs (λ r. refl) (d i)))
Edit-Distinct {rs} (claims lease_owner now run free one) d i = keeps_ids i _ _ rs (λ r. refl) (d i)
Edit-Distinct {rs} (renews me run_id lease_owner generation now) d i =
    keeps_ids i _ _ rs (λ r. refl) (d i)
Edit-Distinct {rs} (stages me run_id generation st now) d i = keeps_ids i _ _ rs (λ r. refl) (d i)
Edit-Distinct {rs} (fails me run_id generation code now) d i = keeps_ids i _ _ rs (λ r. refl) (d i)
Edit-Distinct {rs} (acknowledges me run_id now) d i = keeps_ids i _ _ rs (λ r. refl) (d i)
Edit-Distinct {rs} (completes me run_id generation report now) d i =
    keeps_ids i _ _ rs (λ r. refl) (d i)
Edit-Distinct {rs} (cancels_queued me run_id now) d i = keeps_ids i _ _ rs (λ r. refl) (d i)
Edit-Distinct {rs} (requests_cancel me run_id now live) d i = keeps_ids i _ _ rs (λ r. refl) (d i)

-- No transaction gives two runs one id.
pub Step-Distinct : {offset : ℕ} {s t : Store} → Step offset s t → Distinct s.runs → Distinct t.runs
Step-Distinct st d = Edit-Distinct (Step-Edit st) d

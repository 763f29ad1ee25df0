-- ===== src/Futures/Lifecycle/Quota.antt =====
-- The limits of a user: one open run, and five new ones a day by the Shanghai calendar.
use native.Mathlib.Nat.{le_trans}
use zhigu.Base.{
  ℕ, ◌+◌, ◌≤◌, ◌<◌, ◌≡◌, refl, ap, ap₂, inl, inr, Bool, true, List, ◌∷◌, String, count, update,
  count-update-le, count-update-le_known, arith, Bool-cases, eq_iff,
}
use zhigu.Futures.Store.{Run, Store, Identity, Draft}
use zhigu.Futures.Run.{owned, in_flight, request_cancel_row}
use zhigu.Futures.Create.{
  RunCreateInput, new_run, is_open, of_user, created_on, beijing_day, day_length,
}
use zhigu.Futures.Lifecycle.Edits.{
  Edit, stay, claims, creates, renews, stages, fails, acknowledges, expires, completes,
  cancels_queued, requests_cancel,
}
use zhigu.Futures.Lifecycle.Steps.{Step, Step-Edit}

-- Two identities are one if a run is of both.
of_user_only : (me you : Identity) (r : Run) → of_user me r ≡ true → of_user you r ≡ true → you ≡ me
of_user_only me you r h k = ground (arith, eq_iff r.mode me.mode, eq_iff r.mode you.mode)

keeps_open :
    (me : Identity) (test : Run → Bool) (f : Run → Run) (rs : List Run)
    → ((r : Run) → test r ≡ true → is_open me (f r) ≡ true → is_open me r ≡ true)
    → count (is_open me) rs ≤ 1
    → count (is_open me) (update test f rs) ≤ 1
keeps_open me test f rs keep h = le_trans (count-update-le (is_open me) test f rs keep) h

-- A new run is the only open one of its user.
creates-open :
    (me you : Identity) (r : Run) (rs : List Run)
    → of_user me r ≡ true
    → count (is_open me) rs ≡ 0
    → count (is_open you) rs ≤ 1
    → count (is_open you) (r ∷ rs) ≤ 1
unfolding count
creates-open me you r rs mine free h = elim (Bool-cases (of_user you r)) [
  | inl e ↦
      ground (arith, ap (λ (i : Identity). count (is_open i) rs) (of_user_only me you r mine e))
  | inr e ↦ ground arith
]

new_run-of_user :
    (run_id : String) (me : Identity) (key : String) (input : RunCreateInput) (draft : Draft)
    (now : ℕ)
    → of_user me (new_run run_id me key input draft now) ≡ true
new_run-of_user run_id me key input draft now = ground (arith, eq_iff me.mode me.mode)

Edit-open :
    {offset : ℕ} {rs qs : List Run} (you : Identity)
    → Edit offset rs qs
    → count (is_open you) rs ≤ 1
    → count (is_open you) qs ≤ 1
Edit-open you stay h = h
Edit-open {rs} you (creates run_id me key input draft now fresh free today) h =
    creates-open me you (new_run run_id me key input draft now) rs
      (new_run-of_user run_id me key input draft now) free h
Edit-open {rs} you (expires now) h =
    keeps_open you _ _ _ (λ r e p. ground arith)
      (keeps_open you _ _ _ (λ r e p. ground arith)
        (keeps_open you _ _ rs (λ r e p. ground arith) h))
Edit-open {rs} you (claims lease_owner now run free one) h =
    keeps_open you _ _ rs (λ r e p. ground arith) h
Edit-open {rs} you (renews me run_id lease_owner generation now) h =
    keeps_open you _ _ rs (λ r e p. ground arith) h
Edit-open {rs} you (stages me run_id generation st now) h =
    keeps_open you _ _ rs (λ r e p. ground arith) h
Edit-open {rs} you (fails me run_id generation code now) h =
    keeps_open you _ _ rs (λ r e p. ground arith) h
Edit-open {rs} you (acknowledges me run_id now) h = keeps_open you _ _ rs (λ r e p. ground arith) h
Edit-open {rs} you (completes me run_id generation report now) h =
    keeps_open you _ _ rs (λ r e p. ground arith) h
Edit-open {rs} you (cancels_queued me run_id now) h =
    keeps_open you _ _ rs (λ r e p. ground arith) h
Edit-open {rs} you (requests_cancel me run_id now live) h =
    le_trans
      (count-update-le_known (λ r. owned me run_id r ≡ true → in_flight r.status ≡ true)
        (is_open you) (owned me run_id) (request_cancel_row now) rs (λ r e q p. ground (arith, q e))
        live)
      h

-- No transaction gives a user a second open run.
pub Step-open :
    {offset : ℕ} {s t : Store} (you : Identity)
    → Step offset s t
    → count (is_open you) s.runs ≤ 1
    → count (is_open you) t.runs ≤ 1
Step-open you st h = Edit-open you (Step-Edit st) h

keeps_daily :
    (offset day : ℕ) (me : Identity) (test : Run → Bool) (f : Run → Run) (rs : List Run)
    → ((r : Run) → created_on offset day me (f r) ≡ true → created_on offset day me r ≡ true)
    → count (created_on offset day me) rs ≤ 5
    → count (created_on offset day me) (update test f rs) ≤ 5
keeps_daily offset day me test f rs keep h =
    le_trans (count-update-le (created_on offset day me) test f rs (λ r e. keep r)) h

-- The instants of one Shanghai day have one midnight.
beijing_day_only :
    (offset a b : ℕ)
    → beijing_day offset a ≤ b + offset
    → b + offset < beijing_day offset a + day_length
    → beijing_day offset a ≡ beijing_day offset b
beijing_day_only offset a b h k = omega arith

creates-daily :
    (offset t now : ℕ) (me you : Identity) (r : Run) (rs : List Run)
    → of_user me r ≡ true
    → r.created_at ≡ now
    → count (created_on offset (beijing_day offset now) me) rs < 5
    → count (created_on offset (beijing_day offset t) you) rs ≤ 5
    → count (created_on offset (beijing_day offset t) you) (r ∷ rs) ≤ 5
unfolding count
creates-daily offset t now me you r rs mine at today h =
    elim (Bool-cases (created_on offset (beijing_day offset t) you r)) [
      | inl e ↦
          let same : you ≡ me = of_user_only me you r mine (ground arith) in
          let day : beijing_day offset t ≡ beijing_day offset now =
            beijing_day_only offset t now (ground arith) (ground arith) in
          rw e (omega (arith, ap₂ (λ d i. count (created_on offset d i) rs) day same))
      | inr e ↦ rw e (omega arith)
    ]

Edit-daily :
    {rs qs : List Run} (offset t : ℕ) (you : Identity)
    → Edit offset rs qs
    → count (created_on offset (beijing_day offset t) you) rs ≤ 5
    → count (created_on offset (beijing_day offset t) you) qs ≤ 5
Edit-daily offset t you stay h = h
Edit-daily {rs} offset t you (creates run_id me key input draft now fresh free today) h =
    creates-daily offset t now me you (new_run run_id me key input draft now) rs
      (new_run-of_user run_id me key input draft now) refl today h
Edit-daily {rs} offset t you (expires now) h =
    keeps_daily offset _ you _ _ _ (λ r p. p)
      (keeps_daily offset _ you _ _ _ (λ r p. p) (keeps_daily offset _ you _ _ rs (λ r p. p) h))
Edit-daily {rs} offset t you (claims lease_owner now run free one) h =
    keeps_daily offset _ you _ _ rs (λ r p. p) h
Edit-daily {rs} offset t you (renews me run_id lease_owner generation now) h =
    keeps_daily offset _ you _ _ rs (λ r p. p) h
Edit-daily {rs} offset t you (stages me run_id generation st now) h =
    keeps_daily offset _ you _ _ rs (λ r p. p) h
Edit-daily {rs} offset t you (fails me run_id generation code now) h =
    keeps_daily offset _ you _ _ rs (λ r p. p) h
Edit-daily {rs} offset t you (acknowledges me run_id now) h =
    keeps_daily offset _ you _ _ rs (λ r p. p) h
Edit-daily {rs} offset t you (completes me run_id generation report now) h =
    keeps_daily offset _ you _ _ rs (λ r p. p) h
Edit-daily {rs} offset t you (cancels_queued me run_id now) h =
    keeps_daily offset _ you _ _ rs (λ r p. p) h
Edit-daily {rs} offset t you (requests_cancel me run_id now live) h =
    keeps_daily offset _ you _ _ rs (λ r p. p) h

-- Nor a sixth run on a day.
pub Step-daily :
    {offset : ℕ} {s u : Store} (t : ℕ) (you : Identity)
    → Step offset s u
    → count (created_on offset (beijing_day offset t) you) s.runs ≤ 5
    → count (created_on offset (beijing_day offset t) you) u.runs ≤ 5
Step-daily {offset} t you st h = Edit-daily offset t you (Step-Edit st) h

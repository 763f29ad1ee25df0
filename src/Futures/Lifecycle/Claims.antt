-- ===== src/Futures/Lifecycle/Claims.antt =====
-- Which run ClaimQueuedRun takes, and how it can fail.
use zhigu.Base.{
  ℕ, ◌≤◌, ◌<◌, ◌≡◌, ◌⊎◌, inl, inr, Bool, true, false, List, String, eq_refl, count, count_mono,
  count-Elem, update, All, Elem, least_lem, least-none, ok, err, Error, leb, leb→le, arith,
  Bool-cases, Option-cases,
}
use zhigu.Futures.Store.{Run, Store}
use zhigu.Futures.Run.{
  is_active, is_queued, earliest, claimable, claim_target, claim_row, claimed, claim_found,
  claim_queued_run,
}
use zhigu.Futures.Lifecycle.Ids.{has_id, Distinct}

-- The row that was read is the one row that the claim updates.
claim_target_one :
    (run : Run) (rs : List Run)
    → Distinct rs
    → Elem run rs
    → is_queued run.status ≡ true
    → count (claim_target run) rs ≡ 1
claim_target_one run rs distinct m q = omega (
  arith,
  distinct run.id,
  count_mono (claim_target run) (has_id run.id) rs (λ r h. ground arith),
  count-Elem (claim_target run) run rs m (ground (arith, eq_refl run.id)),
)

claim_found-eq-ok :
    (lease_owner : String) (now : ℕ) (run : Run) (s : Store)
    → count (claim_target run) s.runs ≡ 1
    → claim_found lease_owner now run s
      ≡ ok (
        claimed lease_owner now run,
        record s { runs = update (claim_target run) (claim_row lease_owner now) s.runs },
      )
unfolding claim_found
claim_found-eq-ok lease_owner now run s h = rw (h)

-- No slot is free; or one is, and no run is visible, queued and unlocked; or the oldest such run is
-- started, and no row changes but the one with its id.
pub ClaimOutcome : (String → String → Bool) → (String → Bool) → String → ℕ → Store → Type 0
ClaimOutcome id_before locked lease_owner now s =
    ((2 ≤ count is_active s.runs)
      × (claim_queued_run id_before locked lease_owner now s ≡ err Error.quota_exceeded))
    ⊎ (((count is_active s.runs < 2)
          × All (λ r. claimable locked r ≡ false) s.runs
          × (claim_queued_run id_before locked lease_owner now s ≡ err Error.not_found))
        ⊎ ((run : Run) × (count is_active s.runs < 2)
            × Elem run s.runs
            × (claimable locked run ≡ true)
            × All (λ r. claimable locked r ≡ true → run.created_at ≤ r.created_at) s.runs
            × (claim_queued_run id_before locked lease_owner now s
                ≡ ok (
                  claimed lease_owner now run,
                  record s { runs = update (claim_target run) (claim_row lease_owner now) s.runs },
                ))))

-- Where the ids are distinct a claim never meets a conflict. It is refused for want of a slot exactly
-- when two runs execute, for want of a run exactly when a slot is free and no queued run is visible
-- and unlocked, and otherwise it starts such a run, none of them created before it, and changes no
-- row but the one with that id.
pub claim_queued_run_outcome :
    (id_before : String → String → Bool) (locked : String → Bool) (lease_owner : String) (now : ℕ)
    (s : Store)
    → Distinct s.runs
    → ClaimOutcome id_before locked lease_owner now s
unfolding claim_queued_run ClaimOutcome
claim_queued_run_outcome id_before locked lease_owner now s distinct =
    elim (Bool-cases (leb 2 (count is_active s.runs))) [
      | inl full ↦ inl (leb→le _ _ full, rw full)
      | inr free ↦ elim (Option-cases (earliest id_before (claimable locked) s.runs)) [
        | inl e ↦ inr (inl (ground arith, least-none _ _ _ _ e, rw (free, e, claim_queued_run)))
        | inr (run, e) ↦
            let (m, t, older) = least_lem _ _ (claimable locked) s.runs e in
            let one = claim_target_one run s.runs distinct m (ground arith) in
            inr (
              inr (
                run,
                ground arith,
                m,
                t,
                older,
                rw (free, e, claim_queued_run) (claim_found-eq-ok lease_owner now run s one),
              ))
      ]
    ]

-- ===== src/Finance/Runs/Versions.antt =====
-- The versions that the compare-and-swap of a run stands on, whichever loop or request writes it.
use native.Mathlib.Nat.{le_trans}
use zhigu.Base.{
  ℕ, ◌+◌, ◌≤◌, ◌<◌, ◌≡◌, refl, ◌∙◌, ◌⊎◌, inl, inr, Bool, List, [], ◌∷◌, String, Related,
  Related-refl, Related-update, update, count, arith, commit, Option-cases, Bool-cases, first, ◌==◌,
  ◌||◌, ltb, null_gt, not, str_eq,
}
use zhigu.Finance.Runs.{
  ResearchRun, RunStatus, cas_update_run, cas_target, cas_row, plain, fail_queue_timeouts,
  fail_timed_out, reap_expired_leases, reap, renew_lease, renew_target, finalize_cancel,
  converge_cancels, for_each, found, delete_canceled, cancel_target, is_run, closed_row,
  snapshot_timeouts, canceled,
}

-- A row after a write: who holds the version it had before can tell whether its status changed.
pub record Onward (r t : ResearchRun) : Type 0 where
  pub same_id : t.id ≡ r.id
  pub version : r.version ≤ t.version
  pub noticed : (t.status ≡ r.status) ⊎ (r.version < t.version)

Onward-refl : (r : ResearchRun) → Onward r r
Onward-refl r = record { same_id = refl; version = omega arith; noticed = inl refl }

Onward-trans : (r t u : ResearchRun) → Onward r t → Onward t u → Onward r u
Onward-trans r t u h k = record {
  same_id = k.same_id ∙ h.same_id;
  version = le_trans h.version k.version;
  noticed = elim h.noticed [
    | inr lt ↦ inr (omega arith)
    | inl e ↦ elim k.noticed [ inr lt ↦ inr (omega arith) | inl e' ↦ inl (e' ∙ e) ]
  ];
}

Related-trans :
    (rs ts us : List ResearchRun)
    → Related Onward rs ts
    → Related Onward ts us
    → Related Onward rs us
Related-trans [] [] [] h k = tt
Related-trans [] [] (u ∷ us) h k = elim k [ ]
Related-trans [] (t ∷ ts) us h k = elim h [ ]
Related-trans (r ∷ rs) [] us h k = elim h [ ]
Related-trans (r ∷ rs) (t ∷ ts) [] h k = elim k [ ]
Related-trans (r ∷ rs) (t ∷ ts) (u ∷ us) h k =
    (Onward-trans r t u h.0 k.0, Related-trans rs ts us h.1 k.1)

for_each-Onward :
    (body : ResearchRun → List ResearchRun → List ResearchRun)
    → ((run : ResearchRun) (rs : List ResearchRun) → Related Onward rs (body run rs))
    → (seen rs : List ResearchRun) → Related Onward rs (for_each body seen rs)
for_each-Onward body one [] rs = Related-refl Onward rs Onward-refl
for_each-Onward body one (run ∷ seen) rs =
    Related-trans rs (body run rs) (for_each body seen (body run rs)) (one run rs)
      (for_each-Onward body one seen (body run rs))

closed_row-Onward :
    (status : RunStatus) (stage : String) (now : ℕ) (r : ResearchRun)
    → Onward r (closed_row status stage now r)
closed_row-Onward status stage now r = record {
  same_id = refl;
  version = omega arith;
  noticed = inr (omega arith);
}

closes-Onward :
    (test : ResearchRun → Bool) (status : RunStatus) (stage : String) (now : ℕ)
    (rs : List ResearchRun)
    → Related Onward rs (update test (closed_row status stage now) rs)
closes-Onward test status stage now rs =
    Related-update Onward test (closed_row status stage now) rs Onward-refl
      (λ r _. closed_row-Onward status stage now r)

cas_update_run-Onward :
    (run_id : String) (expected : ℕ) (allowed : RunStatus → Bool)
    (columns : ResearchRun → ResearchRun) (now : ℕ) (rs : List ResearchRun)
    → Related Onward rs (commit rs (cas_update_run run_id expected allowed (plain columns) now rs))
unfolding cas_update_run
cas_update_run-Onward run_id expected allowed columns now rs =
    elim (Bool-cases (count (cas_target run_id expected allowed) rs == 0)) [
      | inl e ↦ rw e (Related-refl Onward rs Onward-refl)
      | inr e ↦ rw e (
          Related-update Onward (cas_target run_id expected allowed)
            (cas_row expected now (plain columns)) rs Onward-refl
            (λ r h. record {
              same_id = refl;
              version = ground arith;
              noticed = inr (ground arith);
            }))
    ]

fail_queue_timeouts-Onward :
    (now : ℕ) (rs : List ResearchRun) → Related Onward rs (fail_queue_timeouts now rs)
unfolding fail_queue_timeouts
fail_queue_timeouts-Onward now rs = for_each-Onward (fail_timed_out now) one (found _ rs) rs
  where
    one :
        (run : ResearchRun) (qs : List ResearchRun) → Related Onward qs (fail_timed_out now run qs)
    one run qs = elim (Bool-cases (ltb now (run.created_at + (snapshot_timeouts run).1))) [
      | inl e ↦ rw e (Related-refl Onward qs Onward-refl)
      | inr e ↦ rw e (closes-Onward _ _ _ now qs)
    ]

reap_expired_leases-Onward :
    (now : ℕ) (rs : List ResearchRun) → Related Onward rs (reap_expired_leases now rs)
unfolding reap_expired_leases
reap_expired_leases-Onward now rs =
    for_each-Onward (reap now) (λ run qs. closes-Onward _ _ _ now qs) (found _ rs) rs

renew_lease-Onward :
    (run_id : String) (now : ℕ) (rs : List ResearchRun)
    → Related Onward rs (commit rs (renew_lease run_id now rs))
unfolding renew_lease
renew_lease-Onward run_id now rs = elim (Bool-cases (count (renew_target run_id) rs == 0)) [
  | inl e ↦ rw e (Related-refl Onward rs Onward-refl)
  | inr e ↦ rw e (
      Related-update Onward (renew_target run_id) _ rs Onward-refl
        (λ r _. record { same_id = refl; version = omega arith; noticed = inl refl }))
]

delete_canceled-Onward :
    (run : ResearchRun) (now : ℕ) (rs : List ResearchRun)
    → Related Onward rs (delete_canceled run now rs)
delete_canceled-Onward run now rs = elim (Bool-cases (str_eq run.stage "deleting")) [
  | inl e ↦ rw e (
      Related-update Onward (is_run run.id) _ rs Onward-refl
        (λ r _. record { same_id = refl; version = omega arith; noticed = inl refl }))
  | inr e ↦ rw e (Related-refl Onward rs Onward-refl)
]

finalize_cancel-Onward :
    (acked : Bool) (run_id : String) (now : ℕ) (rs : List ResearchRun)
    → Related Onward rs (commit rs (finalize_cancel acked run_id now rs))
unfolding finalize_cancel
finalize_cancel-Onward acked run_id now rs = elim (Option-cases (first (is_run run_id) rs)) [
  | inl e ↦ rw (e, finalize_cancel, commit) (Related-refl Onward rs Onward-refl)
  | inr (run, e) ↦ elim (Bool-cases (acked || not (null_gt run.lease_until now))) [
    | inr unmet ↦ rw (e, finalize_cancel, commit, unmet) (Related-refl Onward rs Onward-refl)
    | inl met ↦ elim (Bool-cases (count (cancel_target run_id) rs == 0)) [
      | inl none_left ↦
          rw (e, finalize_cancel, commit, met, none_left) (Related-refl Onward rs Onward-refl)
      | inr some_left ↦
          rw (e, finalize_cancel, commit, met, some_left)
            (Related-trans rs
              (update (cancel_target run_id) (closed_row canceled "canceled" now) rs) _
              (closes-Onward _ _ _ now rs) (delete_canceled-Onward run now _))
    ]
  ]
]

converge_cancels-Onward :
    (acked : String → Bool) (now : ℕ) (rs : List ResearchRun)
    → Related Onward rs (converge_cancels acked now rs)
unfolding converge_cancels
converge_cancels-Onward acked now rs =
    for_each-Onward _ (λ run qs. finalize_cancel-Onward (acked run.id) run.id now qs) (found _ rs)
      rs

-- The writes of the worker, of a request and of the nodes of a run; one that fails writes nothing, and
-- no caller of casUpdateRun sets the version.
pub data Write (rs : List ResearchRun) : List ResearchRun → Type 0 where
  swaps :
      (run_id : String) (expected : ℕ) (allowed : RunStatus → Bool)
      (columns : ResearchRun → ResearchRun) (now : ℕ)
      → Write rs (commit rs (cas_update_run run_id expected allowed (plain columns) now rs))
  fails_queued : (now : ℕ) → Write rs (fail_queue_timeouts now rs)
  reaps : (now : ℕ) → Write rs (reap_expired_leases now rs)
  renews : (run_id : String) (now : ℕ) → Write rs (commit rs (renew_lease run_id now rs))
  finalizes :
      (acked : Bool) (run_id : String) (now : ℕ)
      → Write rs (commit rs (finalize_cancel acked run_id now rs))
  converges : (acked : String → Bool) (now : ℕ) → Write rs (converge_cancels acked now rs)

pub data Writes (rs : List ResearchRun) : List ResearchRun → Type 0 where
  start : Writes rs rs
  then_ : {ts us : List ResearchRun} → Writes rs ts → Write ts us → Writes rs us

Write-Onward : {rs ts : List ResearchRun} → Write rs ts → Related Onward rs ts
Write-Onward {rs} (swaps run_id expected allowed columns now) =
    cas_update_run-Onward run_id expected allowed columns now rs
Write-Onward {rs} (fails_queued now) = fail_queue_timeouts-Onward now rs
Write-Onward {rs} (reaps now) = reap_expired_leases-Onward now rs
Write-Onward {rs} (renews run_id now) = renew_lease-Onward run_id now rs
Write-Onward {rs} (finalizes acked run_id now) = finalize_cancel-Onward acked run_id now rs
Write-Onward {rs} (converges acked now) = converge_cancels-Onward acked now rs

-- Any number of writes keep the rows and their ids; a run's version never goes down, and it has gone up
-- if the run has another status than before.
pub Writes-Onward : {rs ts : List ResearchRun} → Writes rs ts → Related Onward rs ts
Writes-Onward {rs} start = Related-refl Onward rs Onward-refl
Writes-Onward {rs} (then_ {ts} {us} before one) =
    Related-trans rs ts us (Writes-Onward before) (Write-Onward one)

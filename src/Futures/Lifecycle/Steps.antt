-- ===== src/Futures/Lifecycle/Steps.antt =====
-- The committed transactions of scheduler.go and runs.go as a step relation, and their edits.
use zhigu.Base.{
  ℕ, ◌≡◌, refl, ap, subst, inl, inr, Bool, Option, String, first, ok, arith, Option-cases,
}
use zhigu.Futures.Store.{Report, Run, Identity, Store}
use zhigu.Futures.Run.{
  owned, claim_queued_run, renew_run_lease, set_run_stage, fail_run, acknowledge_canceled_run,
  expire_stale_runs, complete_run, cancel_run,
}
use zhigu.Futures.Create.{RunCreateInput, RunView, create_run}
use zhigu.Futures.Lifecycle.Edits.{Edit, renews, fails, acknowledges, expires, completes}
use zhigu.Futures.Lifecycle.Runs.{
  Edit-subst, update_one-runs, fail_run-runs, finish_run-runs, complete_with-runs,
  complete_run-runs, cancel_as-runs, claim_queued_run-runs, set_run_stage-runs,
}
use zhigu.Futures.Lifecycle.Creation.{create_run-runs}

-- One committed transaction.
pub data Step (offset : ℕ) (s t : Store) : Type 0 where
  claim :
      (id_before : String → String → Bool) (locked : String → Bool) (lease_owner : String) (now : ℕ)
      (run : Run)
      → claim_queued_run id_before locked lease_owner now s ≡ ok (run, t)
      → Step offset s t
  create :
      (run_id outbox_id : String) (me : Identity) (key : String) (input : RunCreateInput) (now : ℕ)
      (v : RunView)
      → create_run offset run_id outbox_id me key input now s ≡ ok (v, t)
      → Step offset s t
  renew :
      (me : Identity) (run_id lease_owner : String) (generation now : ℕ)
      → renew_run_lease me run_id lease_owner generation now s ≡ ok t
      → Step offset s t
  set_stage :
      (me : Identity) (run_id : String) (generation : ℕ) (stage : String) (now : ℕ)
      → set_run_stage me run_id generation stage now s ≡ ok t
      → Step offset s t
  fail :
      (outbox_id : String) (me : Identity) (run_id : String) (generation : ℕ) (code : String)
      (now : ℕ)
      → fail_run outbox_id me run_id generation code now s ≡ ok t
      → Step offset s t
  acknowledge :
      (me : Identity) (run_id : String) (now : ℕ)
      → acknowledge_canceled_run me run_id now s ≡ ok t
      → Step offset s t
  expire : (now : ℕ) → t ≡ expire_stale_runs now s → Step offset s t
  complete :
      (outbox_id : String) (me : Identity) (run_id : String) (generation : ℕ)
      (report : Option Report) (now : ℕ)
      → complete_run outbox_id me run_id generation report now s ≡ ok t
      → Step offset s t
  cancel :
      (me : Identity) (run_id : String) (now : ℕ)
      → cancel_run me run_id now s ≡ ok t
      → Step offset s t

-- What a committed transaction does to futures_runs.
pub Step-Edit : {offset : ℕ} {s t : Store} → Step offset s t → Edit offset s.runs t.runs
unfolding renew_run_lease acknowledge_canceled_run expire_stale_runs cancel_run
Step-Edit {s} (claim id_before locked lease_owner now run h) =
    claim_queued_run-runs id_before locked lease_owner now s h
Step-Edit {offset} {s} (create run_id outbox_id me key input now v h) =
    create_run-runs offset run_id outbox_id me key input now s h
Step-Edit {s} (renew me run_id lease_owner generation now h) =
    Edit-subst (renews me run_id lease_owner generation now) (update_one-runs _ _ s h).1
Step-Edit {s} (set_stage me run_id generation stage now h) =
    set_run_stage-runs me run_id generation stage now s h
Step-Edit {s} (fail outbox_id me run_id generation code now h) =
    Edit-subst (fails me run_id generation code now)
      (fail_run-runs outbox_id me run_id generation code now s h).1
Step-Edit {s} (acknowledge me run_id now h) =
    Edit-subst (acknowledges me run_id now) (update_one-runs _ _ s h).1
Step-Edit {s} (expire now e) = Edit-subst (expires now) (ap (λ (u : Store). u.runs) e)
Step-Edit {offset} {s} {t} (complete outbox_id me run_id generation report now h) =
    let (body, hb) = complete_run-runs outbox_id me run_id generation report now s h in
    let (u, same, hu) = complete_with-runs outbox_id me run_id generation now body s hb in
    subst (λ rs. Edit offset rs t.runs) same
      (Edit-subst (completes me run_id generation body now)
        (finish_run-runs outbox_id me run_id generation now body u hu).1)
Step-Edit {s} (cancel me run_id now h) = elim (Option-cases (first (owned me run_id) s.runs)) [
  | inl e ↦ absurd (ground arith)
  | inr (run, e) ↦ cancel_as-runs run.status me run_id now s e refl (rw (e, cancel_run) at h)
]

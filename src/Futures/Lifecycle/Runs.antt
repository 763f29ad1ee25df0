-- ===== src/Futures/Lifecycle/Runs.antt =====
-- What each operation of scheduler.go and runs.go does to futures_runs when it succeeds.
use zhigu.Base.{
  ℕ, ◌<◌, ◌≡◌, sym, ◌∙◌, subst, inl, inr, Bool, true, Option, none, some, List, [], ◌∷◌, String,
  count, update, first, first_only, ◌>>=◌, ok, >>=-eq-ok, guard-eq-ok, arith, Option-cases,
}
use zhigu.Futures.Store.{
  Status, Report, Run, Identity, ReportRow, EvidenceLink, Store, queued, succeeded, failed,
  canceled,
}
use zhigu.Futures.Notify.{write_notification}
use zhigu.Futures.Run.{
  owned, update_one, in_flight, earliest, claim_queued_run, claim_found, claimed, set_run_stage,
  one_of_run_stage, fail_run, fail_row, fail_target, insert_report, insert_link, insert_links,
  complete_run, complete_with, finish_run, report_row, complete_row, complete_target, cancel_as,
  is_active, claimable, request_cancel_row, claim_target, claim_row,
}
use zhigu.Futures.Lifecycle.Edits.{Edit, stay, claims, stages, cancels_queued, requests_cancel}

pub write_notification-runs :
    (outbox_id : String) (me : Identity) (kind object_id : String) (v : ℕ) (dedupe : String)
    (now : ℕ) (s : Store) {t : Store}
    → write_notification outbox_id me kind object_id v dedupe now s ≡ ok t
    → t.runs ≡ s.runs
unfolding write_notification
write_notification-runs outbox_id me kind object_id v dedupe now s h = ground arith

pub update_one-runs :
    (test : Run → Bool) (f : Run → Run) (s : Store) {t : Store}
    → update_one test f s ≡ ok t
    → (count test s.runs ≡ 1) × (t.runs ≡ update test f s.runs)
update_one-runs test f s h = ground arith

pub fail_run-runs :
    (outbox_id : String) (me : Identity) (run_id : String) (generation : ℕ) (code : String)
    (now : ℕ) (s : Store) {t : Store}
    → fail_run outbox_id me run_id generation code now s ≡ ok t
    → (count (fail_target me run_id generation) s.runs ≡ 1)
      × (t.runs ≡ update (fail_target me run_id generation) (fail_row code now) s.runs)
unfolding fail_run
fail_run-runs outbox_id me run_id generation code now s h =
    let (_, h1) = guard-eq-ok _ _ _ h in
    let (u, hu, hn) = >>=-eq-ok _ _ h1 in
    let (one, moved) = update_one-runs _ _ s hu in
    (one, write_notification-runs _ _ _ _ _ _ _ u hn ∙ moved)

pub insert_report-runs :
    (row : ReportRow) (s : Store) {t : Store} → insert_report row s ≡ ok t → t.runs ≡ s.runs
insert_report-runs row s h = ground arith

pub insert_link-runs :
    (link : EvidenceLink) (s : Store) {t : Store} → insert_link link s ≡ ok t → t.runs ≡ s.runs
insert_link-runs link s h = ground arith

pub insert_links-runs :
    (me : Identity) (run_id : String) (ids : List String) (s : Store) {t : Store}
    → insert_links me run_id ids s ≡ ok t
    → t.runs ≡ s.runs
unfolding insert_links
insert_links-runs me run_id [] s h = cc
insert_links-runs me run_id (i ∷ ids) s h =
    let (u, hu, hl) = >>=-eq-ok _ _ h in
    insert_links-runs me run_id ids u hl ∙ insert_link-runs _ s hu

pub finish_run-runs :
    (outbox_id : String) (me : Identity) (run_id : String) (generation now : ℕ) (report : Report)
    (s : Store) {t : Store}
    → finish_run outbox_id me run_id generation now report s ≡ ok t
    → (count (complete_target me run_id generation now) s.runs ≡ 1)
      × (t.runs
          ≡ update (complete_target me run_id generation now) (complete_row report now) s.runs)
unfolding finish_run
finish_run-runs outbox_id me run_id generation now report s h =
    let (u, hu, hn) = >>=-eq-ok _ _ h in
    let (one, moved) = update_one-runs _ _ s hu in
    (one, write_notification-runs _ _ _ _ _ _ _ u hn ∙ moved)

pub complete_with-runs :
    (outbox_id : String) (me : Identity) (run_id : String) (generation now : ℕ) (report : Report)
    (s : Store) {t : Store}
    → complete_with outbox_id me run_id generation now report s ≡ ok t
    → (u : Store) × (u.runs ≡ s.runs)
      × (finish_run outbox_id me run_id generation now report u ≡ ok t)
unfolding complete_with
complete_with-runs outbox_id me run_id generation now report s h =
    let (s1, h1, k1) =
      >>=-eq-ok (insert_report (report_row me run_id report) s)
        (λ x.
          insert_links me run_id report.evidence_ids x
          >>= finish_run outbox_id me run_id generation now report)
        h in
    let (s2, h2, k2) =
      >>=-eq-ok (insert_links me run_id report.evidence_ids s1)
        (finish_run outbox_id me run_id generation now report) k1 in
    (s2, insert_links-runs me run_id report.evidence_ids s1 h2 ∙ insert_report-runs _ s h1, k2)

pub Edit-subst :
    {offset : ℕ} {rs qs ts : List Run} → Edit offset rs qs → ts ≡ qs → Edit offset rs ts
Edit-subst e p = subst (Edit _ _) (sym p) e

pub request_cancel-runs :
    {offset : ℕ} (me : Identity) (run_id : String) (now : ℕ) (s : Store) {t : Store} {run : Run}
    → first (owned me run_id) s.runs ≡ some run
    → in_flight run.status ≡ true
    → update_one (owned me run_id) (request_cancel_row now) s ≡ ok t
    → Edit offset s.runs t.runs
request_cancel-runs me run_id now s f live h =
    let (one, moved) = update_one-runs (owned me run_id) (request_cancel_row now) s h in
    Edit-subst
      (requests_cancel me run_id now
        (first_only (owned me run_id) (λ r. in_flight r.status ≡ true) s.runs one f live))
      moved

pub cancel_as-runs :
    {offset : ℕ} (st : Status) (me : Identity) (run_id : String) (now : ℕ) (s : Store) {t : Store}
    {run : Run}
    → first (owned me run_id) s.runs ≡ some run
    → run.status ≡ st
    → cancel_as st me run_id now s ≡ ok t
    → Edit offset s.runs t.runs
unfolding cancel_as
cancel_as-runs succeeded me run_id now s f e h = Edit-subst stay (ground arith)
cancel_as-runs failed me run_id now s f e h = Edit-subst stay (ground arith)
cancel_as-runs canceled me run_id now s f e h = Edit-subst stay (ground arith)
cancel_as-runs queued me run_id now s f e h =
    Edit-subst (cancels_queued me run_id now) (update_one-runs _ _ s h).1
cancel_as-runs _ me run_id now s f e h = request_cancel-runs me run_id now s f (rw e) h

pub claim_found-runs :
    (lease_owner : String) (now : ℕ) (run : Run) (s : Store) {r : Run} {t : Store}
    → claim_found lease_owner now run s ≡ ok (r, t)
    → (count (claim_target run) s.runs ≡ 1)
      × (t.runs ≡ update (claim_target run) (claim_row lease_owner now) s.runs)
      × (r ≡ claimed lease_owner now run)
unfolding claim_found
claim_found-runs lease_owner now run s h = ground arith

-- A successful claim: a slot was free, and the run is the earliest that can be claimed.
pub claim_queued_run-eq-ok :
    (id_before : String → String → Bool) (locked : String → Bool) (lease_owner : String) (now : ℕ)
    (s : Store) {r : Run} {t : Store}
    → claim_queued_run id_before locked lease_owner now s ≡ ok (r, t)
    → (run : Run) × (count is_active s.runs < 2)
      × (earliest id_before (claimable locked) s.runs ≡ some run)
      × (claim_found lease_owner now run s ≡ ok (r, t))
unfolding claim_queued_run
claim_queued_run-eq-ok id_before locked lease_owner now s h =
    elim (Option-cases (earliest id_before (claimable locked) s.runs)) [
      | inl e ↦ absurd (ground (arith))
      | inr (run, e) ↦ (run, ground arith, e, ground arith)
    ]

pub claim_queued_run-runs :
    {offset : ℕ} (id_before : String → String → Bool) (locked : String → Bool)
    (lease_owner : String) (now : ℕ) (s : Store) {r : Run} {t : Store}
    → claim_queued_run id_before locked lease_owner now s ≡ ok (r, t)
    → Edit offset s.runs t.runs
claim_queued_run-runs id_before locked lease_owner now s h =
    let (run, free, _, found) = claim_queued_run-eq-ok id_before locked lease_owner now s h in
    let (one, moved, _) = claim_found-runs lease_owner now run s found in
    Edit-subst (claims lease_owner now run free one) moved

pub set_run_stage-runs :
    {offset : ℕ} (me : Identity) (run_id : String) (generation : ℕ) (stage : String) (now : ℕ)
    (s : Store) {t : Store}
    → set_run_stage me run_id generation stage now s ≡ ok t
    → Edit offset s.runs t.runs
unfolding set_run_stage
set_run_stage-runs me run_id generation stage now s h =
    elim (Option-cases (one_of_run_stage stage)) [
      | inl e ↦ absurd (ground arith)
      | inr (st, e) ↦
          Edit-subst (stages me run_id generation st now)
            (update_one-runs _ _ s (rw (e, set_run_stage) at h)).1
    ]

pub complete_run-runs :
    (outbox_id : String) (me : Identity) (run_id : String) (generation : ℕ) (report : Option Report)
    (now : ℕ) (s : Store) {t : Store}
    → complete_run outbox_id me run_id generation report now s ≡ ok t
    → (body : Report) × (complete_with outbox_id me run_id generation now body s ≡ ok t)
unfolding complete_run
complete_run-runs outbox_id me run_id generation none now s h = absurd (ground arith)
complete_run-runs outbox_id me run_id generation (some body) now s h = (body, ground arith)

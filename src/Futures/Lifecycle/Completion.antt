-- ===== src/Futures/Lifecycle/Completion.antt =====
-- What CompleteRun writes, and when it refuses.
use native.Mathlib.Nat.{le_trans}
use zhigu.Base.{
  ℕ, ◌≤◌, ◌<◌, ◌≡◌, sym, ◌∙◌, inl, inr, Bool, true, false, null_gt, Option, some, List, [], ◌∷◌,
  String, ◌<>◌, eq_refl, count, first, update, All, ok, ◌>>=◌, >>=-eq-ok, arith, Option-cases,
  subst,
}
use zhigu.Futures.Store.{Report, Run, Identity, ReportRow, EvidenceLink, Store}
use zhigu.Futures.Notify.{write_notification, has_dedupe_key}
use zhigu.Futures.Run.{
  owned, is_executing, update_one, may_complete, same_link, same_report, insert_report, insert_link,
  insert_links, report_row, complete_row, complete_target, finish_run, complete_with, complete_run,
}
use zhigu.Futures.Lifecycle.Runs.{
  update_one-runs, write_notification-runs, complete_with-runs, finish_run-runs,
}

-- Whatever the branch, the reader is told, once, and the other tables stay.
pub write_notification_kept :
    (outbox_id : String) (me : Identity) (kind object_id : String) (v : ℕ) (dedupe : String)
    (now : ℕ) (s : Store) {t : Store}
    → write_notification outbox_id me kind object_id v dedupe now s ≡ ok t
    → (t.reports ≡ s.reports)
      × (t.links ≡ s.links)
      × (0 < count (has_dedupe_key dedupe) t.notifications)
unfolding write_notification count
write_notification_kept outbox_id me kind object_id v dedupe now s h =
    ground (arith, eq_refl dedupe)

finish_run_kept :
    (outbox_id : String) (me : Identity) (run_id : String) (generation now : ℕ) (report : Report)
    (s : Store) {t : Store}
    → finish_run outbox_id me run_id generation now report s ≡ ok t
    → (t.runs ≡ update (complete_target me run_id generation now) (complete_row report now) s.runs)
      × (t.reports ≡ s.reports)
      × (t.links ≡ s.links)
      × (0 < count (has_dedupe_key ("run." <> run_id <> ".succeeded")) t.notifications)
unfolding finish_run
finish_run_kept outbox_id me run_id generation now report s h =
    let (u, hu, hn) = >>=-eq-ok _ _ h in
    let (_, moved) = update_one-runs _ _ s hu in
    let (reports, links, told) = write_notification_kept _ _ _ _ _ _ _ u hn in
    (
      write_notification-runs _ _ _ _ _ _ _ u hn ∙ moved,
      reports ∙ update_one-reports _ _ s hu,
      links ∙ update_one-links _ _ s hu,
      told,
    )
  where
    update_one-reports :
        (test : Run → Bool) (f : Run → Run) (s : Store) {t : Store}
        → update_one test f s ≡ ok t
        → t.reports ≡ s.reports
    update_one-reports test f s h = ground arith

    update_one-links :
        (test : Run → Bool) (f : Run → Run) (s : Store) {t : Store}
        → update_one test f s ≡ ok t
        → t.links ≡ s.links
    update_one-links test f s h = ground arith

abbrev pub link_of : Identity → String → String → EvidenceLink
link_of me run_id i = record {
  owner_id = me.owner_id;
  mode = me.mode;
  run_id = run_id;
  record_id = i;
}

abbrev pub IsLinked : Identity → String → List EvidenceLink → String → Type 0
IsLinked me run_id links i = 0 < count (same_link (link_of me run_id i)) links

same_link_refl : (l : EvidenceLink) → same_link l l ≡ true
same_link_refl l = ground (arith, eq_refl l.mode, eq_refl l.run_id, eq_refl l.record_id)

insert_link_kept :
    (l m : EvidenceLink) (s : Store) {t : Store}
    → insert_link l s ≡ ok t
    → (t.reports ≡ s.reports)
      × (0 < count (same_link l) t.links)
      × (count (same_link m) s.links ≤ count (same_link m) t.links)
unfolding count
insert_link_kept l m s h = ground (arith, same_link_refl l)

insert_links_grow :
    (me : Identity) (run_id : String) (ids : List String) (m : EvidenceLink) (s : Store) {t : Store}
    → insert_links me run_id ids s ≡ ok t
    → (t.reports ≡ s.reports) × (count (same_link m) s.links ≤ count (same_link m) t.links)
unfolding insert_links
insert_links_grow me run_id [] m s h = (ground arith, ground arith)
insert_links_grow me run_id (i ∷ ids) m s h =
    let (u, hu, hl) =
      >>=-eq-ok (insert_link (link_of me run_id i) s) (insert_links me run_id ids) h in
    let (same, _, le) = insert_link_kept (link_of me run_id i) m s hu in
    let (same', le') = insert_links_grow me run_id ids m u hl in (same' ∙ same, le_trans le le')

insert_links-IsLinked :
    (me : Identity) (run_id : String) (ids : List String) (s : Store) {t : Store}
    → insert_links me run_id ids s ≡ ok t
    → All (IsLinked me run_id t.links) ids
unfolding insert_links
insert_links-IsLinked me run_id [] s h = tt
insert_links-IsLinked me run_id (i ∷ ids) s h =
    let l = link_of me run_id i in
    let (u, hu, hl) = >>=-eq-ok (insert_link l s) (insert_links me run_id ids) h in
    (
      le_trans (insert_link_kept l l s hu).1 (insert_links_grow me run_id ids l u hl).1,
      insert_links-IsLinked me run_id ids u hl,
    )

insert_report_kept :
    (row : ReportRow) (s : Store) {t : Store}
    → insert_report row s ≡ ok t
    → (count (same_report row) s.reports ≡ 0) × (t.reports ≡ row ∷ s.reports)
insert_report_kept row s h = ground arith

no_link : EvidenceLink
no_link = record { owner_id = 0; mode = ""; run_id = ""; record_id = "" }

complete_with_effect :
    (outbox_id : String) (me : Identity) (run_id : String) (generation now : ℕ) (body : Report)
    (s : Store) {t : Store}
    → complete_with outbox_id me run_id generation now body s ≡ ok t
    → (t.reports ≡ report_row me run_id body ∷ s.reports)
      × (count (same_report (report_row me run_id body)) s.reports ≡ 0)
      × All (IsLinked me run_id t.links) body.evidence_ids
      × (0 < count (has_dedupe_key ("run." <> run_id <> ".succeeded")) t.notifications)
unfolding complete_with
complete_with_effect outbox_id me run_id generation now body s h =
    let (s1, h1, k1) =
      >>=-eq-ok (insert_report (report_row me run_id body) s)
        (λ x.
          insert_links me run_id body.evidence_ids x
          >>= finish_run outbox_id me run_id generation now body)
        h in
    let (s2, h2, k2) =
      >>=-eq-ok (insert_links me run_id body.evidence_ids s1)
        (finish_run outbox_id me run_id generation now body) k1 in
    let (fresh, added) = insert_report_kept (report_row me run_id body) s h1 in
    let (_, reports, links, told) = finish_run_kept outbox_id me run_id generation now body s2 k2 in
    (
      reports ∙ (insert_links_grow me run_id body.evidence_ids no_link s1 h2).0 ∙ added,
      fresh,
      subst (λ ls. All (IsLinked me run_id ls) body.evidence_ids) (sym links)
          (insert_links-IsLinked me run_id body.evidence_ids s1 h2),
      told,
    )

complete_run-eq-ok :
    (outbox_id : String) (me : Identity) (run_id : String) (generation now : ℕ) (body : Report)
    (run : Run) (s : Store) {t : Store}
    → first (owned me run_id) s.runs ≡ some run
    → complete_run outbox_id me run_id generation (some body) now s ≡ ok t
    → (run.generation ≡ generation)
      × (may_complete now run ≡ true)
      × (complete_with outbox_id me run_id generation now body s ≡ ok t)
unfolding complete_run
complete_run-eq-ok outbox_id me run_id generation now body run s found h = ground arith

complete_run_found :
    (outbox_id : String) (me : Identity) (run_id : String) (generation now : ℕ)
    (report : Option Report) (s : Store) {t : Store}
    → complete_run outbox_id me run_id generation report now s ≡ ok t
    → (run : Run) × (body : Report) × (first (owned me run_id) s.runs ≡ some run)
      × (report ≡ some body)
unfolding complete_run
complete_run_found outbox_id me run_id generation now report s h =
    elim (Option-cases (first (owned me run_id) s.runs)) [
      | inl e ↦ absurd (ground arith)
      | inr (run, e) ↦ elim (Option-cases report) [
        | inl n ↦ absurd (ground arith)
        | inr (body, b) ↦ (run, body, e, b)
      ]
    ]

pub CompletionEffect : Identity → String → ℕ → ℕ → Option Report → Store → Store → Type 0
CompletionEffect me run_id generation now report s t =
    (run : Run) × (body : Report) × (first (owned me run_id) s.runs ≡ some run)
    × (report ≡ some body)
    × (run.generation ≡ generation)
    × (is_executing run.status ≡ true)
    × (run.cancel_requested ≡ false)
    × (null_gt run.lease_until now ≡ true)
    × (null_gt run.deadline_at now ≡ true)
    × (count (complete_target me run_id generation now) s.runs ≡ 1)
    × (t.runs ≡ update (complete_target me run_id generation now) (complete_row body now) s.runs)
    × (t.reports ≡ report_row me run_id body ∷ s.reports)
    × (count (same_report (report_row me run_id body)) s.reports ≡ 0)
    × All (IsLinked me run_id t.links) body.evidence_ids
    × (0 < count (has_dedupe_key ("run." <> run_id <> ".succeeded")) t.notifications)

-- A completed run was executing under the caller's generation, not asked to stop, with its lease and
-- its deadline ahead. Its row is the only one that changes, and succeeds with the report; the report
-- is stored once, each record that it cites is linked, and the reader is notified.
pub complete_run_effect :
    (outbox_id : String) (me : Identity) (run_id : String) (generation now : ℕ)
    (report : Option Report) (s : Store) {t : Store}
    → complete_run outbox_id me run_id generation report now s ≡ ok t
    → CompletionEffect me run_id generation now report s t
unfolding CompletionEffect
complete_run_effect outbox_id me run_id generation now report s {t} h =
    let (run, body, found, given) =
      complete_run_found outbox_id me run_id generation now report s h in
    let h' = subst (λ b. complete_run outbox_id me run_id generation b now s ≡ ok t) given h in
    let (gen, may, stored) =
      complete_run-eq-ok outbox_id me run_id generation now body run s found h' in
    let (u, same, finished) = complete_with-runs outbox_id me run_id generation now body s stored in
    let (one, moved) = finish_run-runs outbox_id me run_id generation now body u finished in
    let (reports, fresh, linked, told) =
      complete_with_effect outbox_id me run_id generation now body s stored in
    (
      run,
      body,
      found,
      given,
      gen,
      ground arith,
      ground arith,
      ground arith,
      ground arith,
      subst (λ rs. count (complete_target me run_id generation now) rs ≡ 1) same one,
      subst
          (λ rs.
            t.runs ≡ update (complete_target me run_id generation now) (complete_row body now) rs)
          same moved,
      reports,
      fresh,
      linked,
      told,
    )

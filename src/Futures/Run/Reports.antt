-- ===== src/Futures/Run/Reports.antt =====
-- service/futures/runs.go: the report that completes a run, and the request to cancel one.
use zhigu.Base.{
  ℕ, ◌+◌, Bool, true, not, ◌&&◌, ◌||◌, Option, none, some, List, [], ◌∷◌, String, ◌<>◌, str_eq,
  count, first, ltb, ◌==◌, if◌then◌else◌, null_gt, Result, ok, err, Error, ◌>>=◌, ◌>>◌, guard,
}
use zhigu.Futures.Store.{
  Status, queued, succeeded, failed, canceling, canceled, complete, Report, Run, Identity,
  ReportRow, EvidenceLink, Store,
}
use zhigu.Futures.Notify.{write_notification}
use zhigu.Futures.Run.Rows.{is_executing, is_queued, owned, executing_as, update_one}
use zhigu.Futures.Run.Scheduler.{cancel_row}

-- CompleteRun.

abbrev pub same_report : ReportRow → ReportRow → Bool
same_report a b =
    str_eq a.body.id b.body.id
    || a.owner_id == b.owner_id
      && str_eq a.mode b.mode
      && str_eq a.run_id b.run_id
      && a.report_version == b.report_version

-- The primary key and UNIQUE (owner_id, mode, run_id, report_version).
abbrev pub insert_report : ReportRow → Store → Result Store
insert_report row s =
    if ltb 0 (count (same_report row) s.reports)
    then err Error.database
    else ok (record s { reports = row ∷ s.reports })

abbrev pub same_link : EvidenceLink → EvidenceLink → Bool
same_link a b =
    a.owner_id == b.owner_id
    && str_eq a.mode b.mode
    && str_eq a.run_id b.run_id
    && str_eq a.record_id b.record_id

-- ON CONFLICT DO NOTHING, and record_id REFERENCES futures_observations.
abbrev pub insert_link : EvidenceLink → Store → Result Store
insert_link link s =
    if ltb 0 (count (same_link link) s.links)
    then ok s
    else if ltb 0 (count (str_eq link.record_id) s.observations)
    then ok (record s { links = link ∷ s.links })
    else err Error.database

unfoldable pub insert_links : Identity → String → List String → Store → Result Store
insert_links me run_id [] s = ok s
insert_links me run_id (record_id ∷ ids) s =
    insert_link
      (record { owner_id = me.owner_id; mode = me.mode; run_id = run_id; record_id = record_id }) s
    >>= insert_links me run_id ids

-- The guard on the row that was read.
abbrev pub may_complete : ℕ → Run → Bool
may_complete now r =
    not r.cancel_requested
    && is_executing r.status
    && null_gt r.lease_until now
    && null_gt r.deadline_at now

abbrev pub complete_target : Identity → String → ℕ → ℕ → Run → Bool
complete_target me run_id generation now r =
    executing_as me run_id generation r && not r.cancel_requested && null_gt r.lease_until now

abbrev pub complete_row : Report → ℕ → Run → Run
complete_row report now r = record r {
  status = succeeded;
  stage = complete;
  report = some report;
  failure_code = none;
  version = r.version + 1;
  updated_at = now;
}

unfoldable pub finish_run : String → Identity → String → ℕ → ℕ → Report → Store → Result Store
finish_run outbox_id me run_id generation now report s = do
  t ← update_one (complete_target me run_id generation now) (complete_row report now) s
  write_notification outbox_id me "run_succeeded" run_id 1 ("run." <> run_id <> ".succeeded") now t

abbrev pub report_row : Identity → String → Report → ReportRow
report_row me run_id report = record {
  owner_id = me.owner_id;
  mode = me.mode;
  run_id = run_id;
  report_version = 1;
  body = report;
}

unfoldable pub complete_with : String → Identity → String → ℕ → ℕ → Report → Store → Result Store
complete_with outbox_id me run_id generation now report s = do
  t ← insert_report (report_row me run_id report) s
  u ← insert_links me run_id report.evidence_ids t
  finish_run outbox_id me run_id generation now report u

-- `report` is what json.Unmarshal and validateReportSchema make of the bytes, or nothing if they
-- refuse them. The later readings of the clock only fill updated_at and created_at.
unfoldable pub complete_run :
    String → Identity → String → ℕ → Option Report → ℕ → Store → Result Store
complete_run outbox_id me run_id generation report now s = elim (first (owned me run_id) s.runs) [
  | none ↦ err Error.not_found
  | some run ↦
      guard (run.generation == generation) Error.revision_conflict
      >> guard (may_complete now run) Error.invalid_input
      >> (elim report [
        | none ↦ err Error.invalid_input
        | some body ↦ complete_with outbox_id me run_id generation now body s
      ])
]

-- CancelRun.

abbrev pub cancel_queued_row : ℕ → Run → Run
cancel_queued_row now r = record (cancel_row now r) {
  cancel_requested = true;
  version = r.version + 1;
}

abbrev pub request_cancel_row : ℕ → Run → Run
request_cancel_row now r = record r {
  cancel_requested = true;
  status = canceling;
  version = r.version + 1;
  updated_at = now;
}

unfoldable pub cancel_as : Status → Identity → String → ℕ → Store → Result Store
cancel_as succeeded me run_id now s = ok s
cancel_as failed me run_id now s = ok s
cancel_as canceled me run_id now s = ok s
cancel_as queued me run_id now s =
    update_one (λ r. owned me run_id r && is_queued r.status) (cancel_queued_row now) s
cancel_as _ me run_id now s = update_one (owned me run_id) (request_cancel_row now) s

unfoldable pub cancel_run : Identity → String → ℕ → Store → Result Store
unfolding cancel_as
cancel_run me run_id now s = elim (first (owned me run_id) s.runs) [
  | none ↦ err Error.not_found
  | some run ↦ cancel_as run.status me run_id now s
]

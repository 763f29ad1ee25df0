-- ===== src/Futures/Create/Admission.antt =====
-- service/futures/domain_runs.go: CreateRun and runMap.
use zhigu.Base.{
  ℕ, Bool, not, ◌&&◌, Option, none, some, String, str_eq, length, count, first, leb, ◌==◌, Result,
  ok, err, Error, ◌>>=◌, ◌>>◌, guard,
}
use zhigu.Futures.Store.{Status, Stage, Report, Run, Identity, Store}
use zhigu.Futures.Create.Keys.{RunCreateInput, claims_match_selection, replay_run_idempotency}
use zhigu.Futures.Create.Rows.{
  beijing_day, is_open, created_on, owned_draft, is_revision, new_run, store_run,
}

-- The limits: one open run, and five a day by the Shanghai calendar.
abbrev pub within_limits : ℕ → Identity → ℕ → Store → Bool
within_limits offset me now s =
    not (leb 1 (count (is_open me) s.runs))
    && not (leb 5 (count (created_on offset (beijing_day offset now) me) s.runs))

unfoldable pub start_run :
    ℕ → String → String → Identity → String → RunCreateInput → ℕ → Store → Result (Run × Store)
start_run offset run_id outbox_id me key input now s =
    elim (first (owned_draft me input.draft_id) s.drafts) [
      | none ↦ err Error.not_found
      | some draft ↦ do
        guard
            (draft.revision == input.expected_revision
              && is_revision draft.parsed_revision input.expected_revision)
            Error.revision_conflict
        guard (claims_match_selection draft.claims input.claims) Error.invalid_input
        guard (within_limits offset me now s) Error.quota_exceeded
        t ← store_run outbox_id me key input (new_run run_id me key input draft now) now s
        ok (new_run run_id me key input draft now, t)
    ]

abbrev pub acceptable : RunCreateInput → Bool
acceptable input =
    input.accept_limits
    && not (str_eq input.draft_id "")
    && leb 1 input.expected_revision
    && not (length input.claims == 0)
    && leb (length input.claims) 12

-- runMap: what the caller is shown.
pub record RunView : Type 0 where
  pub id : String
  pub mode : String
  pub owner_id : ℕ
  pub draft_id : String
  pub draft_revision : ℕ
  pub status : Status
  pub stage : Stage
  pub as_of : ℕ
  pub horizon_end : ℕ
  pub report : Option Report
  pub failure_code : Option String
  pub created_at : ℕ

abbrev pub run_map : Run → RunView
run_map r = record {
  id = r.id;
  mode = r.mode;
  owner_id = r.owner_id;
  draft_id = r.draft_id;
  draft_revision = r.draft_revision;
  status = r.status;
  stage = r.stage;
  as_of = r.as_of;
  horizon_end = r.horizon_end;
  report = r.report;
  failure_code = r.failure_code;
  created_at = r.created_at;
}

-- `run_id` and `outbox_id` hold new uuids; `offset` is Shanghai's distance from UTC.
unfoldable pub create_or_replay :
    Option Run
    → ℕ
    → String
    → String
    → Identity
    → String
    → RunCreateInput
    → ℕ
    → Store
    → Result (Run × Store)
create_or_replay (some value) offset run_id outbox_id me key input now s = ok (value, s)
create_or_replay none offset run_id outbox_id me key input now s =
    start_run offset run_id outbox_id me key input now s

unfoldable pub create_run :
    ℕ → String → String → Identity → String → RunCreateInput → ℕ → Store → Result (RunView × Store)
create_run offset run_id outbox_id me key input now s = do
  guard (acceptable input) Error.invalid_input
  existing ← replay_run_idempotency me key input.hash now s
  done ← create_or_replay existing offset run_id outbox_id me key input now s
  ok (run_map done.0, done.1)

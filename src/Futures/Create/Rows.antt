-- ===== src/Futures/Create/Rows.antt =====
-- service/futures/domain_runs.go: the rows that CreateRun counts and inserts.
use zhigu.Base.{
  ℕ, ◌+◌, ◌*◌, ◌/◌, Bool, true, false, ◌&&◌, ◌||◌, Option, none, some, ◌∷◌, String, ◌<>◌, str_eq,
  count, ltb, leb, ◌==◌, if◌then◌else◌, is_null, Result, ok, err, Error, ◌>>=◌,
}
use zhigu.Futures.Store.{
  object, Status, queued, canceling, waiting, Run, Identity, OutboxValue, pending, Draft, Store,
}
use zhigu.Futures.Run.{is_executing}
use zhigu.Futures.Notify.{new_outbox_event, outbox_has_key}
use zhigu.Futures.Create.Keys.{second, day_length, RunCreateInput, write_idempotency}

-- The midnight in Shanghai that the instant follows, by the local clock, which is `offset` ahead of
-- UTC.
abbrev pub beijing_day : ℕ → ℕ → ℕ
beijing_day offset t = (t + offset) / day_length * day_length

-- CreateRun.

-- `status IN ('queued','running','verifying','canceling')`.
abbrev pub is_open_status : Status → Bool
is_open_status queued = true
is_open_status canceling = true
is_open_status st = is_executing st

abbrev pub of_user : Identity → Run → Bool
of_user me r = r.owner_id == me.owner_id && str_eq r.mode me.mode

abbrev pub is_open : Identity → Run → Bool
is_open me r = of_user me r && is_open_status r.status && is_null r.deleted_at

-- `created_at>=? AND created_at<?`, by the local clock on both sides.
abbrev pub created_on : ℕ → ℕ → Identity → Run → Bool
created_on offset day me r =
    of_user me r
    && leb day (r.created_at + offset)
    && ltb (r.created_at + offset) (day + day_length)

abbrev pub owned_draft : Identity → String → Draft → Bool
owned_draft me id d =
    str_eq d.id id && d.owner_id == me.owner_id && str_eq d.mode me.mode && is_null d.deleted_at

abbrev pub is_revision : Option ℕ → ℕ → Bool
is_revision none n = false
is_revision (some m) n = m == n

abbrev pub new_run : String → Identity → String → RunCreateInput → Draft → ℕ → Run
new_run run_id me key input draft now = record {
  id = run_id;
  owner_id = me.owner_id;
  mode = me.mode;
  draft_id = input.draft_id;
  draft_revision = input.expected_revision;
  status = queued;
  stage = waiting;
  as_of = now;
  horizon_end = now + draft.horizon_days * day_length;
  report = none;
  failure_code = none;
  idempotency_key = key;
  request_hash = input.hash;
  generation = 1;
  cancel_requested = false;
  lease_until = none;
  lease_owner = none;
  deadline_at = some (now + 60 * second);
  version = 0;
  created_at = now;
  updated_at = now;
  deleted_at = none;
}

-- The primary key and UNIQUE (owner_id, mode, idempotency_key).
abbrev pub same_run : Run → Run → Bool
same_run a b =
    str_eq a.id b.id
    || a.owner_id == b.owner_id
      && str_eq a.mode b.mode
      && str_eq a.idempotency_key b.idempotency_key

abbrev pub insert_run : Run → Store → Result Store
insert_run r s =
    if ltb 0 (count (same_run r) s.runs)
    then err Error.database
    else ok (record s { runs = r ∷ s.runs })

-- dedupe_key is UNIQUE.
abbrev pub announce_run : String → Identity → String → ℕ → Store → Result Store
announce_run outbox_id me run_id now s =
    if ltb 0 (count (outbox_has_key ("run.created." <> run_id)) s.outbox)
    then err Error.database
    else ok (record s { outbox = event ∷ s.outbox })
  where
    event : OutboxValue
    event = record {
      id = outbox_id;
      owner_id = me.owner_id;
      mode = me.mode;
      dedupe_key = "run.created." <> run_id;
      payload = object (some (new_outbox_event "run_created" "run" run_id 1 run_id));
      attempts = 0;
      next_attempt_at = now;
      state = pending;
    }

unfoldable pub store_run :
    String → Identity → String → RunCreateInput → Run → ℕ → Store → Result Store
store_run outbox_id me key input value now s = do
  t ← insert_run value s
  u ← announce_run outbox_id me value.id now t
  write_idempotency me "run.create" key input.hash value now u

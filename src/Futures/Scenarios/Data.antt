-- ===== src/Futures/Scenarios/Data.antt =====
-- The stores of the tests.
use zhigu.Base.{ℕ, ◌*◌, true, false, none, some, [], ◌∷◌}
use zhigu.Futures.Store.{
  object, queued, verifying, waiting, evidence, Report, Run, Identity, pending, OutboxValue, Claim,
  Draft, Store,
}
use zhigu.Futures.Notify.{new_outbox_event}
use zhigu.Futures.Create.{RunCreateInput, second}

abbrev pub ann : Identity
ann = record { owner_id = 7; mode = "live" }

abbrev pub shanghai : ℕ
shanghai = 28_800_000_000_000

abbrev pub empty_store : Store
empty_store = record {
  runs = [];
  reports = [];
  links = [];
  observations = "obs_1" ∷ [];
  outbox = [];
  notifications = [];
  drafts = [];
  idempotency = [];
  tombstones = [];
}

abbrev pub copper : Claim
copper = record { id = "claim_1"; hash = "abc" }

abbrev pub draft : Draft
draft = record {
  id = "draft_1";
  owner_id = 7;
  mode = "live";
  revision = 3;
  horizon_days = 14;
  parsed_revision = some 3;
  claims = some (copper ∷ []);
  deleted_at = none;
}

abbrev pub drafted : Store
drafted = record empty_store { drafts = draft ∷ [] }

abbrev pub input : RunCreateInput
input = record {
  draft_id = "draft_1";
  expected_revision = 3;
  claims = copper ∷ [];
  accept_limits = true;
  hash = "hash_1";
}

abbrev pub other_input : RunCreateInput
other_input = record input { hash = "hash_2" }

-- A run that a worker holds until 90 seconds.
abbrev pub executing : Run
executing = record {
  id = "run_1";
  owner_id = 7;
  mode = "live";
  draft_id = "draft_1";
  draft_revision = 3;
  status = verifying;
  stage = evidence;
  as_of = 0;
  horizon_end = 0;
  report = none;
  failure_code = none;
  idempotency_key = "key_1";
  request_hash = "hash_1";
  generation = 2;
  cancel_requested = false;
  lease_until = some (90 * second);
  lease_owner = some "worker";
  deadline_at = some (600 * second);
  version = 1;
  created_at = 0;
  updated_at = 0;
  deleted_at = none;
}

abbrev pub waiting_run : Run
waiting_run = record executing {
  status = queued;
  stage = waiting;
  generation = 1;
  lease_until = none;
  lease_owner = none;
  deadline_at = some (60 * second);
  version = 0;
}

abbrev pub at_work : Store
at_work = record empty_store { runs = executing ∷ [] }

abbrev pub in_line : Store
in_line = record empty_store { runs = waiting_run ∷ [] }

abbrev pub report : Report
report = record { id = "report_1"; evidence_ids = "obs_1" ∷ [] }

abbrev pub event : OutboxValue
event = record {
  id = "out_1";
  owner_id = 7;
  mode = "live";
  dedupe_key = "run.created.run_1";
  payload = object (some (new_outbox_event "run_created" "run" "run_1" 1 "run_1"));
  attempts = 0;
  next_attempt_at = 5;
  state = pending;
}

-- A payload that is no event.
abbrev pub malformed : OutboxValue
malformed = record event {
  id = "out_2";
  dedupe_key = "broken";
  payload = object none;
  next_attempt_at = 4;
}

abbrev pub to_deliver : Store
to_deliver = record empty_store { outbox = event ∷ malformed ∷ [] }

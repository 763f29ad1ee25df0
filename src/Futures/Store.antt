-- ===== src/Futures/Store.antt =====
-- The tables that service/futures works on (model/futures/models.go, service/futures/outbox.go,
-- migrations/futures/001_init.sql). Times are numbers of nanoseconds; a column that an operation
-- modelled here neither tests nor sets is left out.
use zhigu.Base.{ℕ, Bool, Option, List, String}

-- The CHECK on futures_runs.status.
pub data Status : Type 0 where
  queued running verifying succeeded failed canceling canceled : Status

-- The CHECK on futures_runs.stage; the first one is also called `queued` there.
pub data Stage : Type 0 where
  waiting evidence support challenge verify complete : Stage

pub record Report : Type 0 where
  pub id : String
  pub evidence_ids : List String

pub record Run : Type 0 where
  pub id : String
  pub owner_id : ℕ
  pub mode : String
  pub draft_id : String
  pub draft_revision : ℕ
  pub status : Status
  pub stage : Stage
  pub as_of : ℕ
  pub horizon_end : ℕ
  pub report : Option Report
  pub failure_code : Option String
  pub idempotency_key : String
  pub request_hash : String
  pub generation : ℕ
  pub cancel_requested : Bool
  pub lease_until : Option ℕ
  pub lease_owner : Option String
  pub deadline_at : Option ℕ
  pub version : ℕ
  pub created_at : ℕ
  pub updated_at : ℕ
  pub deleted_at : Option ℕ

pub record Identity : Type 0 where
  pub owner_id : ℕ
  pub mode : String

-- A row of futures_reports.
pub record ReportRow : Type 0 where
  pub owner_id : ℕ
  pub mode : String
  pub run_id : String
  pub report_version : ℕ
  pub body : Report

pub record EvidenceLink : Type 0 where
  pub owner_id : ℕ
  pub mode : String
  pub run_id : String
  pub record_id : String

pub record OutboxEvent : Type 0 where
  pub schema_version : String
  pub type : String
  pub object_type : String
  pub object_id : String
  pub object_version : ℕ
  pub run_id : String

-- The CHECK on futures_outbox.state.
pub data OutboxState : Type 0 where
  pending delivered dead : OutboxState

-- A payload that is no JSON object does not deserialize into the map of the column; of an object (or of
-- null, which is an empty map) there is what `json.Unmarshal` into an OutboxEvent makes of it, or nothing
-- if that fails.
pub data Payload : Type 0 where
  not_object : Payload
  object : Option OutboxEvent → Payload

pub record OutboxValue : Type 0 where
  pub id : String
  pub owner_id : ℕ
  pub mode : String
  pub dedupe_key : String
  pub payload : Payload
  pub attempts : ℕ
  pub next_attempt_at : ℕ
  pub state : OutboxState

pub record Notification : Type 0 where
  pub owner_id : ℕ
  pub mode : String
  pub type : String
  pub object_id : String
  pub object_version : ℕ
  pub dedupe_key : String

-- A claim of a draft: its id as fmt.Sprint prints it, and hashJSON of the whole.
pub record Claim : Type 0 where
  pub id : String
  pub hash : String

-- `claims` is what json.Unmarshal makes of the column, or nothing if it fails.
pub record Draft : Type 0 where
  pub id : String
  pub owner_id : ℕ
  pub mode : String
  pub revision : ℕ
  pub horizon_days : ℕ
  pub parsed_revision : Option ℕ
  pub claims : Option (List Claim)
  pub deleted_at : Option ℕ

-- A row of futures_idempotency_keys; `response` is what json.Unmarshal into a Run makes of the
-- column, or nothing if it fails.
pub record Idempotency : Type 0 where
  pub owner_id : ℕ
  pub mode : String
  pub operation : String
  pub key : String
  pub request_hash : String
  pub response : Option Run
  pub expires_at : ℕ

pub record Tombstone : Type 0 where
  pub owner_id : ℕ
  pub object_id : String

pub record Store : Type 0 where
  pub runs : List Run
  pub reports : List ReportRow
  pub links : List EvidenceLink
  pub observations : List String
  pub outbox : List OutboxValue
  pub notifications : List Notification
  pub drafts : List Draft
  pub idempotency : List Idempotency
  pub tombstones : List Tombstone

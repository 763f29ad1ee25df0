-- ===== src/Futures/Create/Keys.antt =====
-- service/futures/domain_runs.go: claimsMatchSelection and replayRunIdempotency, with
-- writeIdempotency of domain.go and deletion_idempotency.go.
use zhigu.Base.{
  ℕ, ◌+◌, Bool, true, false, not, ◌&&◌, Option, none, some, List, [], ◌∷◌, String, str_eq, length,
  count, first, ltb, leb, ◌==◌, if◌then◌else◌, Result, ok, err, Error,
}
use zhigu.Futures.Store.{Run, Identity, Claim, Idempotency, Tombstone, Store}

abbrev pub second : ℕ
second = 1_000_000_000

abbrev pub day_length : ℕ
day_length = 86_400_000_000_000

-- `hash` is hashJSON of the whole input.
pub record RunCreateInput : Type 0 where
  pub draft_id : String
  pub expected_revision : ℕ
  pub claims : List Claim
  pub accept_limits : Bool
  pub hash : String

-- claimsMatchSelection.

-- Of claims with one id the map keeps the last.
abbrev last_claim : String → List Claim → Option Claim
last_claim id [] = none
last_claim id (c ∷ cs) = elim (last_claim id cs) [
  | none ↦ if str_eq c.id id then some c else none
  | some d ↦ some d
]

abbrev matches_claim : List Claim → Claim → Bool
matches_claim parsed c = elim (last_claim c.id parsed) [
  | none ↦ false
  | some want ↦ str_eq want.hash c.hash
]

abbrev all_match : List Claim → List Claim → Bool
all_match parsed [] = true
all_match parsed (c ∷ cs) = matches_claim parsed c && all_match parsed cs

unfoldable pub claims_match_selection : Option (List Claim) → List Claim → Bool
claims_match_selection none selected = false
claims_match_selection (some parsed) selected =
    not (length selected == 0) && leb (length selected) (length parsed) && all_match parsed selected

-- Idempotency keys.

abbrev pub has_key : Identity → String → String → Idempotency → Bool
has_key me operation key i =
    i.owner_id == me.owner_id
    && str_eq i.mode me.mode
    && str_eq i.operation operation
    && str_eq i.key key

abbrev pub tombstone_of : Identity → String → Tombstone → Bool
tombstone_of me object_id b = b.owner_id == me.owner_id && str_eq b.object_id object_id

-- ensureIdempotentObjectVisible, at a response that is a run: its id is the object's.
abbrev ensure_visible : Identity → Run → Store → Result (Option Run)
ensure_visible me value s =
    if ltb 0 (count (tombstone_of me value.id) s.tombstones)
    then err Error.not_found
    else ok (some value)

abbrev replay_row : Identity → String → ℕ → Store → Idempotency → Result (Option Run)
replay_row me request_hash now s row =
    if not (str_eq row.request_hash request_hash)
    then err Error.idempotency_conflict
    else (elim row.response [
      | none ↦ err Error.database
      | some value ↦
          if ltb now row.expires_at then ensure_visible me value s else err Error.not_found
    ])

unfoldable pub replay_run_idempotency : Identity → String → String → ℕ → Store → Result (Option Run)
replay_run_idempotency me key request_hash now s =
    if str_eq key ""
    then err Error.invalid_input
    else (elim (first (has_key me "run.create" key) s.idempotency) [
      | none ↦ ok none
      | some row ↦ replay_row me request_hash now s row
    ])

-- The Go type keeps the owner, the mode and the internal columns out of its JSON, so that they are
-- zero when the response is read back.
abbrev pub through_json : Run → Run
through_json r = record r {
  owner_id = 0;
  mode = "";
  idempotency_key = "";
  request_hash = "";
  generation = 0;
  cancel_requested = false;
  lease_until = none;
  lease_owner = none;
  deadline_at = none;
  version = 0;
  updated_at = 0;
  deleted_at = none;
}

-- The primary key is (owner_id, mode, operation, key).
abbrev pub write_idempotency : Identity → String → String → String → Run → ℕ → Store → Result Store
write_idempotency me operation key request_hash response now s =
    if ltb 0 (count (has_key me operation key) s.idempotency)
    then err Error.database
    else ok (record s { idempotency = row ∷ s.idempotency })
  where
    row : Idempotency
    row = record {
      owner_id = me.owner_id;
      mode = me.mode;
      operation = operation;
      key = key;
      request_hash = request_hash;
      response = some (through_json response);
      expires_at = now + day_length;
    }

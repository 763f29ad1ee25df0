-- ===== src/Futures/Outbox.antt =====
-- service/futures/outbox.go: delivery of the notification outbox.
pub mod Progress
pub mod Rounds
pub mod Promise
use zhigu.Base.{
  ℕ, zero, suc, ◌+◌, ◌*◌, Bool, true, false, not, ◌&&◌, ◌||◌, Option, none, some, List, [], ◌∷◌,
  String, str_eq, count, update, first, least, ltb, leb, ◌==◌, if◌then◌else◌, Result, ok, err,
  Error, ◌>>=◌, ◌>>◌, guard,
}
use zhigu.Futures.Store.{
  OutboxEvent, Payload, not_object, object, OutboxValue, OutboxState, pending, delivered, dead,
  Notification, Store,
}
use zhigu.Futures.Notify.{has_dedupe_key}

abbrev is_valid_event : OutboxEvent → Bool
is_valid_event e =
    str_eq e.schema_version "futures.outbox-event.v1"
    && not (str_eq e.type "")
    && not (str_eq e.object_type "")
    && not (str_eq e.object_id "")
    && leb 1 e.object_version

-- What gorm makes of the column when it reads the row.
abbrev pub read_payload : Payload → Result (Option OutboxEvent)
read_payload not_object = err Error.unreadable
read_payload (object e) = ok e

-- An object that is no event fails to unmarshal.
abbrev pub parse_outbox_event : Option OutboxEvent → Result OutboxEvent
parse_outbox_event none = err Error.invalid_input
parse_outbox_event (some e) = if is_valid_event e then ok e else err Error.invalid_input

-- Nanoseconds.
unfoldable pub outbox_backoff : ℕ → ℕ
outbox_backoff attempt =
    if leb attempt 1
    then 10_000_000_000
    else if attempt == 2
    then 30_000_000_000
    else if attempt == 3
    then 60_000_000_000
    else 300_000_000_000

unfoldable pub outbox_state_after_failure : ℕ → ℕ → OutboxState
outbox_state_after_failure attempts_before attempts_after =
    if leb 10 attempts_before || ltb 10 attempts_after then dead else pending

abbrev pub is_pending : OutboxState → Bool
is_pending pending = true
is_pending _ = false

abbrev pub with_id : String → OutboxValue → Bool
with_id id v = str_eq v.id id

abbrev pub failure_row : ℕ → ℕ → OutboxValue → OutboxValue
failure_row attempts_before now v = record v {
  attempts = attempts_before + 1;
  state = outbox_state_after_failure attempts_before (attempts_before + 1);
  next_attempt_at = now + outbox_backoff (attempts_before + 1);
}

unfoldable pub record_outbox_failure : String → ℕ → Store → Result Store
record_outbox_failure id now s = elim (first (λ v. with_id id v && is_pending v.state) s.outbox) [
  | none ↦ err Error.not_found
  | some row ↦ read_payload row.payload >>= λ _.
      ok (record s { outbox = update (with_id id) (failure_row row.attempts now) s.outbox })
]

-- The rows that ProcessOutbox may take; another transaction holds the `locked` ones.
abbrev pub is_due : (String → Bool) → ℕ → OutboxValue → Bool
is_due locked now v = is_pending v.state && leb v.next_attempt_at now && not (locked v.id)

-- `ORDER BY next_attempt_at`, to which gorm's First adds the primary key.
abbrev pub next_due :
    (String → String → Bool) → (OutboxValue → Bool) → List OutboxValue → Option OutboxValue
next_due id_before = least (λ v. v.next_attempt_at) (λ v w. id_before v.id w.id)

abbrev pub delivered_row : ℕ → OutboxValue → OutboxValue
delivered_row attempts_before v = record v { state = delivered; attempts = attempts_before + 1 }

-- The insert under `if count == 0`.
abbrev pub notify_once : OutboxValue → OutboxEvent → Store → Store
notify_once row event s =
    if count (has_dedupe_key row.dedupe_key) s.notifications == 0
    then record s { notifications = notification ∷ s.notifications }
    else s
  where
    notification : Notification
    notification = record {
      owner_id = row.owner_id;
      mode = row.mode;
      type = event.type;
      object_id = event.object_id;
      object_version = event.object_version;
      dedupe_key = row.dedupe_key;
    }

-- The transaction of one delivery at its row.
unfoldable pub deliver : OutboxValue → Store → Result Store
deliver row s = do
  payload ← read_payload row.payload
  event ← parse_outbox_event payload
  let t = notify_once row event s
  ok (record t { outbox = update (with_id row.id) (delivered_row row.attempts) t.outbox })

-- How ProcessOutbox ends: with the number of deliveries, and with an error or none.
pub record Outcome : Type 0 where
  pub processed : ℕ
  pub error : Option Error
  pub store : Store

abbrev pub done : ℕ → Store → Outcome
done processed s = record { processed = processed; error = none; store = s }

abbrev pub failed_with : ℕ → Error → Store → Outcome
failed_with processed e s = record { processed = processed; error = some e; store = s }

-- One round of the loop at a row: what is left to do, or the end.
abbrev after_failure : (ℕ → Store → Option Outcome) → OutboxValue → ℕ → ℕ → Store → Option Outcome
after_failure continue row now processed s = elim (record_outbox_failure row.id now s) [
  | err e ↦ some (failed_with processed e s)
  | ok t ↦ continue processed t
]

abbrev pub round :
    (ℕ → Store → Option Outcome) → Option OutboxValue → ℕ → ℕ → Store → Option Outcome
round continue none now processed s = some (done processed s)
round continue (some row) now processed s = elim (deliver row s) [
  | ok t ↦ continue (processed + 1) t
  | err e ↦ after_failure continue row now processed s
]

-- `for processed < limit`, on fuel; nothing comes back if the fuel runs out.
unfoldable pub process_loop :
    ℕ → (String → String → Bool) → (String → Bool) → ℕ → ℕ → ℕ → Store → Option Outcome
process_loop zero id_before locked now limit processed s = none
process_loop (suc fuel) id_before locked now limit processed s = elim (leb limit processed) [
  | true ↦ some (done processed s)
  | false ↦
      round (λ p t. process_loop fuel id_before locked now limit p t)
        (next_due id_before (is_due locked now) s.outbox) now processed s
]

abbrev pub effective_limit : ℕ → ℕ
effective_limit limit = if limit == 0 || ltb 2000 limit then 2000 else limit

unfoldable pub process_outbox :
    ℕ → (String → String → Bool) → (String → Bool) → ℕ → ℕ → Store → Option Outcome
unfolding process_loop
process_outbox fuel id_before locked now limit s =
    process_loop fuel id_before locked now (effective_limit limit) 0 s

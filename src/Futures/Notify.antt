-- ===== src/Futures/Notify.antt =====
-- service/futures/domain_hypotheses.go: writeNotification, and outbox.go: NewOutboxEvent.
use zhigu.Base.{
  contains, ℕ, Bool, ◌||◌, some, ◌∷◌, String, str_eq, count, ltb, if◌then◌else◌, Result, ok, err,
  Error,
}
use zhigu.Futures.Store.{object, Identity, OutboxEvent, OutboxValue, pending, Notification, Store}

unfoldable pub new_outbox_event : String → String → String → ℕ → String → OutboxEvent
new_outbox_event kind object_type object_id object_version run_id = record {
  schema_version = "futures.outbox-event.v1";
  type = kind;
  object_type = object_type;
  object_id = object_id;
  object_version = object_version;
  run_id = run_id;
}

abbrev pub has_dedupe_key : String → Notification → Bool
has_dedupe_key dedupe n = str_eq n.dedupe_key dedupe

abbrev pub outbox_has_key : String → OutboxValue → Bool
outbox_has_key dedupe v = str_eq v.dedupe_key dedupe

unfoldable pub object_type_of : String → String
object_type_of kind =
    if contains kind "check" || contains kind "expired" then "hypothesis" else "run"

abbrev pub event_row : String → Identity → String → String → ℕ → String → ℕ → OutboxValue
event_row outbox_id me kind object_id object_version dedupe now = record {
  id = outbox_id;
  owner_id = me.owner_id;
  mode = me.mode;
  dedupe_key = dedupe;
  payload = object (some (new_outbox_event kind (object_type_of kind) object_id object_version ""));
  attempts = 0;
  next_attempt_at = now;
  state = pending;
}

abbrev pub notification_of : Identity → String → String → ℕ → String → Notification
notification_of me kind object_id object_version dedupe = record {
  owner_id = me.owner_id;
  mode = me.mode;
  type = kind;
  object_id = object_id;
  object_version = object_version;
  dedupe_key = dedupe;
}

-- Both inserts name a column that is UNIQUE (dedupe_key); `outbox_id` is "out_" and a new uuid.
unfoldable pub write_notification :
    String → Identity → String → String → ℕ → String → ℕ → Store → Result Store
write_notification outbox_id me kind object_id object_version dedupe now s =
    if ltb 0 (count (has_dedupe_key dedupe) s.notifications)
    then ok s
    else if ltb 0 (count (outbox_has_key dedupe) s.outbox)
    then err Error.database
    else ok (record s {
      outbox = event_row outbox_id me kind object_id object_version dedupe now ∷ s.outbox;
      notifications = notification_of me kind object_id object_version dedupe ∷ s.notifications;
    })

-- ===== src/Futures/Outbox/Promise.antt =====
-- At-least-once delivery with one notification for a dedupe key.
use native.Mathlib.Nat.{le_trans}
use zhigu.Base.{
  List, ◌⊎◌, ℕ, ◌+◌, ◌≤◌, ◌<◌, ◌≡◌, refl, sym, ◌∙◌, subst, inl, inr, Bool, true, false, some, ◌∷◌,
  String, str_eq, eq_refl, eq_iff, count, count-update-le, count-update_only, only_Elem, All,
  All-map, All-update_known, All-update, ltb, Elem, ok, arith, Bool-cases,
}
use zhigu.Futures.Store.{Identity, OutboxValue, Notification, delivered, Store}
use zhigu.Futures.Notify.{has_dedupe_key, write_notification, notification_of, event_row}
use zhigu.Futures.Outbox.{
  with_id, failure_row, is_due, delivered_row, deliver, Outcome, process_outbox, effective_limit,
  outbox_state_after_failure, record_outbox_failure,
}
use zhigu.Futures.Outbox.Progress.{deliver-outbox, record_outbox_failure-outbox}
use zhigu.Futures.Outbox.Rounds.{process_loop-Keeps}

abbrev pub Announced : Store → OutboxValue → Type 0
Announced s v = v.state ≡ delivered → 0 < count (has_dedupe_key v.dedupe_key) s.notifications

-- The outbox keeps its promise: ids are the primary key, no dedupe key has two notifications, and
-- every row that is marked as delivered has its notification.
pub record Kept (s : Store) : Type 0 where
  pub ids : (id : String) → count (with_id id) s.outbox ≤ 1
  pub once : (key : String) → count (has_dedupe_key key) s.notifications ≤ 1
  pub announced : All (Announced s) s.outbox

-- A delivery removes no notification.
deliver-keeps :
    (row : OutboxValue) (s : Store) {t : Store}
    → deliver row s ≡ ok t
    → (key : String)
    → count (has_dedupe_key key) s.notifications ≤ count (has_dedupe_key key) t.notifications
unfolding deliver count
deliver-keeps row s h key = ground arith

deliver-announces :
    (row : OutboxValue) (s : Store) {t : Store}
    → deliver row s ≡ ok t
    → 0 < count (has_dedupe_key row.dedupe_key) t.notifications
unfolding deliver count
deliver-announces row s h = ground (arith, eq_refl row.dedupe_key)

-- The notification that a delivery adds is the first for its key.
deliver-once_own :
    (row : OutboxValue) (s : Store) {t : Store}
    → deliver row s ≡ ok t
    → count (has_dedupe_key row.dedupe_key) s.notifications ≤ 1
    → count (has_dedupe_key row.dedupe_key) t.notifications ≤ 1
unfolding deliver count
deliver-once_own row s h one = ground (arith, eq_refl row.dedupe_key)

deliver-once :
    (row : OutboxValue) (s : Store) {t : Store}
    → deliver row s ≡ ok t
    → (key : String) → count (has_dedupe_key key) s.notifications ≤ 1
    → count (has_dedupe_key key) t.notifications ≤ 1
unfolding deliver count
deliver-once row s {t} h key one = elim (Bool-cases (str_eq row.dedupe_key key)) [
  | inl e ↦
      let same = (eq_iff row.dedupe_key key).0 e in
      subst
        (λ k.
          count (has_dedupe_key k) s.notifications ≤ 1
          → count (has_dedupe_key k) t.notifications ≤ 1)
        same (deliver-once_own row s h) one
  | inr e ↦ ground arith
]

module _ (locked : String → Bool) (now : ℕ) where
  deliver-Kept :
      (row : OutboxValue) (s : Store) {t : Store}
      → Elem row s.outbox
      → deliver row s ≡ ok t
      → Kept s
      → Kept t
  deliver-Kept row s {t} m h k = record {
    ids = λ id. rw (deliver-outbox row s h) (
        le_trans
          (count-update-le (with_id id) (with_id row.id) (delivered_row row.attempts) s.outbox
            (λ v _ e. e))
          (k.ids id));
    once = λ key. deliver-once row s h key (k.once key);
    announced = rw (deliver-outbox row s h) (
        All-update_known (λ v. with_id row.id v ≡ true → v.dedupe_key ≡ row.dedupe_key)
          (Announced t) (with_id row.id) (delivered_row row.attempts) s.outbox
          (λ v e same _ _.
            subst (λ key. 0 < count (has_dedupe_key key) t.notifications) (sym (same e))
              (deliver-announces row s h))
          (only_Elem (with_id row.id) (λ v. v.dedupe_key ≡ row.dedupe_key) row s.outbox m
            (eq_refl row.id) (k.ids row.id) refl)
          (All-map (Announced s) (Announced t) s.outbox
            (λ v a e. le_trans (a e) (deliver-keeps row s h v.dedupe_key)) k.announced));
  }

  failure-Kept :
      (id : String) (s : Store) {t : Store}
      → record_outbox_failure id now s ≡ ok t
      → Kept s
      → Kept t
  unfolding outbox_state_after_failure
  failure-Kept id s {t} h k =
      let (found, _, e) = record_outbox_failure-outbox id now s h in
      rw e (record {
        ids = λ i.
            le_trans
              (count-update-le (with_id i) (with_id id) (failure_row found.attempts now) s.outbox
                (λ v _ p. p))
              (k.ids i);
        once = k.once;
        announced =
            All-update (Announced s) (with_id id) (failure_row found.attempts now) s.outbox
              (λ v _ a e. absurd (ground arith)) k.announced;
      })

abbrev pub is_delivered : OutboxValue → Bool
is_delivered v = elim v.state [ delivered ↦ true | _ ↦ false ]

-- A delivery marks one more row as delivered, and a failure marks none.
deliver-count :
    (locked : String → Bool) (now : ℕ) (row : OutboxValue) (s : Store) {t : Store}
    → Elem row s.outbox
    → is_due locked now row ≡ true
    → deliver row s ≡ ok t
    → Kept s
    → count is_delivered t.outbox ≡ count is_delivered s.outbox + 1
deliver-count locked now row s m due h k =
    let one =
      count-update_only is_delivered (with_id row.id) (delivered_row row.attempts) row s.outbox m
        (eq_refl row.id) (k.ids row.id) in
    rw (deliver-outbox row s h) (ground arith)

failure-count :
    (locked : String → Bool) (now : ℕ) (row : OutboxValue) (s : Store) {t : Store}
    → Elem row s.outbox
    → is_due locked now row ≡ true
    → record_outbox_failure row.id now s ≡ ok t
    → Kept s
    → count is_delivered t.outbox ≡ count is_delivered s.outbox
unfolding outbox_state_after_failure
failure-count locked now row s m due h k =
    let (found, _, e) = record_outbox_failure-outbox row.id now s h in
    let one =
      count-update_only is_delivered (with_id row.id) (failure_row found.attempts now) row s.outbox
        m (eq_refl row.id) (k.ids row.id) in
    rw e (ground arith)

-- ProcessOutbox keeps the outbox's promise, also when it ends with an error: at least one
-- notification for every row that it marks as delivered, at most one for a dedupe key. The number
-- that it returns is the number of rows that it marked as delivered.
pub process_outbox-keeps :
    (fuel : ℕ) (id_before : String → String → Bool) (locked : String → Bool) (now limit : ℕ)
    (s : Store) (o : Outcome)
    → Kept s
    → process_outbox fuel id_before locked now limit s ≡ some o
    → Kept o.store × (count is_delivered o.store.outbox ≡ count is_delivered s.outbox + o.processed)
unfolding process_outbox
process_outbox-keeps fuel id_before locked now limit s o k h =
    process_loop-Keeps locked now id_before (effective_limit limit)
      (λ p t. Kept t × (count is_delivered t.outbox ≡ count is_delivered s.outbox + p))
      (λ p row t u m due d (j, n). (
        deliver-Kept locked now row t m d j,
        deliver-count locked now row t m due d j ∙ omega (arith, n),
      ))
      (λ p row t u m due f (j, n).
        (failure-Kept locked now row.id t f j, failure-count locked now row t m due f j ∙ n))
      fuel 0 s (k, omega arith) o h

-- One more notification, for a key that has none.
new_notification :
    (me : Identity) (kind object_id : String) (version : ℕ) (dedupe key : String)
    (ns : List Notification)
    → count (has_dedupe_key dedupe) ns ≡ 0
    → count (has_dedupe_key key) ns ≤ 1
    → count (has_dedupe_key key) (notification_of me kind object_id version dedupe ∷ ns) ≤ 1
unfolding count
new_notification me kind object_id version dedupe key ns none_yet one =
    elim (Bool-cases (str_eq dedupe key)) [
      | inl e ↦
          let same =
            subst (λ k. count (has_dedupe_key k) ns ≡ 0) ((eq_iff dedupe key).0 e) none_yet in
          ground arith
      | inr e ↦ ground arith
    ]

write_notification-cases :
    (outbox_id : String) (me : Identity) (kind object_id : String) (version : ℕ) (dedupe : String)
    (now : ℕ) (s t : Store)
    → write_notification outbox_id me kind object_id version dedupe now s ≡ ok t
    → ((0 < count (has_dedupe_key dedupe) s.notifications) × (t ≡ s))
      ⊎ ((count (has_dedupe_key dedupe) s.notifications ≡ 0)
          × (t.outbox ≡ event_row outbox_id me kind object_id version dedupe now ∷ s.outbox)
          × (t.notifications ≡ notification_of me kind object_id version dedupe ∷ s.notifications))
unfolding write_notification
write_notification-cases outbox_id me kind object_id version dedupe now s t h =
    elim (Bool-cases (ltb 0 (count (has_dedupe_key dedupe) s.notifications))) [
      | inl e ↦ inl (ground arith, ground arith)
      | inr e ↦ inr (ground arith, ground arith, ground arith)
    ]

-- writeNotification keeps the outbox's promise if the id of the new row is new, and a notification
-- for its dedupe key is there afterwards, whether it was there before or not.
pub write_notification-Kept :
    (outbox_id : String) (me : Identity) (kind object_id : String) (object_version : ℕ)
    (dedupe : String) (now : ℕ) (s t : Store)
    → count (with_id outbox_id) s.outbox ≡ 0
    → Kept s
    → write_notification outbox_id me kind object_id object_version dedupe now s ≡ ok t
    → Kept t × (count (has_dedupe_key dedupe) t.notifications ≡ 1)
unfolding write_notification count
write_notification-Kept outbox_id me kind object_id object_version dedupe now s t fresh k h =
    elim (write_notification-cases outbox_id me kind object_id object_version dedupe now s t h) [
      | inl (there, same) ↦ rw same (k, omega (arith, there, k.once dedupe))
      | inr (none_yet, rows, more) ↦
          let made : Kept t = record {
            ids = λ id. rw rows (new_id id);
            once = λ key. rw more (
                new_notification me kind object_id object_version dedupe key s.notifications
                  none_yet (k.once key));
            announced = rw rows (
              (λ e. absurd (cc)),
              All-map (Announced s) (Announced t) s.outbox (λ v a e. rw more (omega (arith, a e)))
                  k.announced,
            );
          } in
          (made, rw more (ground (arith, eq_refl dedupe)))
    ]
  where
    new_id :
        (id : String)
        → count
            (with_id id)
            (event_row outbox_id me kind object_id object_version dedupe now ∷ s.outbox)
          ≤ 1
    new_id id = elim (Bool-cases (str_eq outbox_id id)) [
      | inl e ↦
          let same =
            subst (λ i. count (with_id i) s.outbox ≡ 0) ((eq_iff outbox_id id).0 e) fresh in
          ground arith
      | inr e ↦ let one = k.ids id in ground arith
    ]

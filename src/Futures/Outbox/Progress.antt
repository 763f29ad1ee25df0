-- ===== src/Futures/Outbox/Progress.antt =====
-- ProcessOutbox ends: with nothing left to deliver, with its limit reached, or at a row that does not
-- deserialize.
use zhigu.Base.{
  ℕ, zero, suc, ◌+◌, ◌≤◌, ◌<◌, ◌≡◌, refl, ◌⊎◌, inl, inr, Bool, true, ◌&&◌, Option, none, some,
  String, eq_refl, eq_iff, sym, subst, false, err, Error, first-Elem, first-test, count, count_none,
  count-update-lt, update, first, first-some, Elem, least_lem, least-none, leb, leb→le,
  Result-cases, ok, arith, Bool-cases, Option-cases,
}
use zhigu.Futures.Store.{OutboxEvent, Payload, not_object, object, OutboxValue, Store}
use zhigu.Futures.Outbox.{
  outbox_backoff, is_pending, with_id, failure_row, record_outbox_failure, is_due, next_due,
  delivered_row, deliver, Outcome, done, failed_with, after_failure, round, process_loop,
  process_outbox, effective_limit,
}

pub outbox_backoff_pos : (n : ℕ) → 0 < outbox_backoff n
unfolding outbox_backoff
outbox_backoff_pos n = ground arith

pub deliver-outbox :
    (row : OutboxValue) (s : Store) {t : Store}
    → deliver row s ≡ ok t
    → t.outbox ≡ update (with_id row.id) (delivered_row row.attempts) s.outbox
unfolding deliver
deliver-outbox row s h = ground arith

pub record_outbox_failure-outbox :
    (id : String) (now : ℕ) (s : Store) {t : Store}
    → record_outbox_failure id now s ≡ ok t
    → (row : OutboxValue) × (first (λ v. with_id id v && is_pending v.state) s.outbox ≡ some row)
      × (t ≡ record s { outbox = update (with_id id) (failure_row row.attempts now) s.outbox })
unfolding record_outbox_failure
record_outbox_failure-outbox id now s h =
    elim (Option-cases (first (λ v. with_id id v && is_pending v.state) s.outbox)) [
      | inl e ↦ absurd (ground arith)
      | inr (row, e) ↦ (row, e, ground arith)
    ]

payload-cases : (p : Payload) → (p ≡ not_object) ⊎ ((e : Option OutboxEvent) × (p ≡ object e))
payload-cases not_object = inl refl
payload-cases (object e) = inr (e, refl)

-- A row that waits, is not locked, and whose payload does not deserialize.
pub record Unreadable (locked : String → Bool) (s : Store) (v : OutboxValue) : Type 0 where
  pub stored : Elem v s.outbox
  pub waits : is_pending v.state ≡ true
  pub unlocked : locked v.id ≡ false
  pub payload : v.payload ≡ not_object

-- A due row can be marked as failed, unless its payload does not deserialize.
record_outbox_failure-cases :
    (locked : String → Bool) (now : ℕ) (row : OutboxValue) (s : Store)
    → Elem row s.outbox
    → is_due locked now row ≡ true
    → ((t : Store) × (record_outbox_failure row.id now s ≡ ok t))
      ⊎ ((record_outbox_failure row.id now s ≡ err Error.unreadable)
          × (v : OutboxValue) × Unreadable locked s v)
unfolding record_outbox_failure
record_outbox_failure-cases locked now row s m due =
    let test = λ (v : OutboxValue). with_id row.id v && is_pending v.state in
    let (found, e) = first-some test row s.outbox m (ground (arith, eq_refl row.id)) in
    let chosen = first-test test s.outbox e in
    let own = (eq_iff found.id row.id).0 (ground arith) in
    let free : locked row.id ≡ false = ground arith in
    elim (payload-cases found.payload) [
      | inl bad ↦ inr (
        rw (e, bad, record_outbox_failure) refl,
        found,
        record {
          stored = first-Elem test s.outbox e;
          waits = ground arith;
          unlocked = subst (λ id. locked id ≡ false) (sym own) free;
          payload = bad;
        },
      )
      | inr (x, good) ↦ inl (
        record s { outbox = update (with_id row.id) (failure_row found.attempts now) s.outbox },
        rw (e, good, record_outbox_failure) refl,
      )
    ]

module _ (locked : String → Bool) (now : ℕ) where
  -- Either way the row that was taken is due no longer.
  deliver_fewer :
      (row : OutboxValue) (s : Store) {t : Store}
      → Elem row s.outbox
      → is_due locked now row ≡ true
      → deliver row s ≡ ok t
      → count (is_due locked now) t.outbox < count (is_due locked now) s.outbox
  deliver_fewer row s m due h = rw (deliver-outbox row s h) (
      count-update-lt (is_due locked now) (with_id row.id) (delivered_row row.attempts) row s.outbox
        m (eq_refl row.id) due (λ v. refl))

  failure_fewer :
      (row : OutboxValue) (s : Store) {t : Store}
      → Elem row s.outbox
      → is_due locked now row ≡ true
      → record_outbox_failure row.id now s ≡ ok t
      → count (is_due locked now) t.outbox < count (is_due locked now) s.outbox
  failure_fewer row s m due h =
      let (found, _, e) = record_outbox_failure-outbox row.id now s h in
      rw e (
        count-update-lt (is_due locked now) (with_id row.id) (failure_row found.attempts now) row
          s.outbox m (eq_refl row.id) due
          (λ v. ground (arith, outbox_backoff_pos (found.attempts + 1))))

  -- The loop ended well: no error, and the limit reached or nothing due.
  abbrev pub Drained : ℕ → Outcome → Type 0
  Drained limit o =
      (o.error ≡ none) × ((limit ≤ o.processed) ⊎ (count (is_due locked now) o.store.outbox ≡ 0))

  -- It ended at a row that does not deserialize.
  abbrev pub Stuck : Outcome → Type 0
  Stuck o = (o.error ≡ some Error.unreadable) × (v : OutboxValue) × Unreadable locked o.store v

  abbrev pub Ends : ℕ → Option Outcome → Type 0
  Ends limit r = (o : Outcome) × (r ≡ some o) × (Drained limit o ⊎ Stuck o)

  module _ (id_before : String → String → Bool) (limit : ℕ) where
    pub next_due_found :
        (s : Store) {row : OutboxValue}
        → next_due id_before (is_due locked now) s.outbox ≡ some row
        → Elem row s.outbox × (is_due locked now row ≡ true)
    next_due_found s h = let (m, due, _) = least_lem _ _ (is_due locked now) s.outbox h in (m, due)

    round-Ends_row :
        (continue : ℕ → Store → Option Outcome) (processed : ℕ) (s : Store) (row : OutboxValue)
        → Elem row s.outbox × (is_due locked now row ≡ true)
        → ((p : ℕ) (t : Store)
            → count (is_due locked now) t.outbox < count (is_due locked now) s.outbox
            → Ends limit (continue p t))
        → Ends limit (round continue (some row) now processed s)
    round-Ends_row continue processed s row (m, due) more = elim (Result-cases (deliver row s)) [
      | inl (t, h) ↦ rw (h, round) (more (processed + 1) t (deliver_fewer row s m due h))
      | inr (x, h) ↦ elim (record_outbox_failure-cases locked now row s m due) [
        | inl (t, k) ↦
            rw (h, k, round, after_failure) (more processed t (failure_fewer row s m due k))
        | inr (k, v, bad) ↦
            rw (h, k, round, after_failure)
              (failed_with processed Error.unreadable s, refl, inr (refl, v, bad))
      ]
    ]

    round-Ends :
        (continue : ℕ → Store → Option Outcome) (processed : ℕ) (s : Store)
        → ((p : ℕ) (t : Store)
            → count (is_due locked now) t.outbox < count (is_due locked now) s.outbox
            → Ends limit (continue p t))
        → Ends limit
            (round continue (next_due id_before (is_due locked now) s.outbox) now processed s)
    round-Ends continue processed s more =
        elim (Option-cases (next_due id_before (is_due locked now) s.outbox)) [
          | inl e ↦ rw e (
            done processed s,
            refl,
            inl (refl, inr (count_none (is_due locked now) s.outbox (least-none _ _ _ s.outbox e))),
          )
          | inr (row, e) ↦ rw e (round-Ends_row continue processed s row (next_due_found s e) more)
        ]

    -- Fuel above the number of due rows is enough.
    process_loop-Ends :
        (fuel processed : ℕ) (s : Store)
        → count (is_due locked now) s.outbox < fuel
        → Ends limit (process_loop fuel id_before locked now limit processed s)
    unfolding process_loop
    process_loop-Ends zero processed s h = elim h [ ]
    process_loop-Ends (suc fuel) processed s h = elim (Bool-cases (leb limit processed)) [
      | inl e ↦ rw (e, process_loop) (done processed s, refl, inl (refl, inl (leb→le _ _ e)))
      | inr e ↦
          rw (e, process_loop)
            (round-Ends (λ p t. process_loop fuel id_before locked now limit p t) processed s
              (λ p t fewer. process_loop-Ends fuel p t (omega arith)))
    ]

-- ProcessOutbox terminates: with fuel above the number of due rows it returns. Without an error it stops
-- only when the limit is reached or when no row is due. The one error of its own comes from a row that
-- waits, is not locked, and has a payload that is no JSON object.
pub process_outbox_ends :
    (fuel : ℕ) (id_before : String → String → Bool) (locked : String → Bool) (now limit : ℕ)
    (s : Store)
    → count (is_due locked now) s.outbox < fuel
    → (o : Outcome) × (process_outbox fuel id_before locked now limit s ≡ some o)
      × (((o.error ≡ none)
            × ((effective_limit limit ≤ o.processed)
                ⊎ (count (is_due locked now) o.store.outbox ≡ 0)))
          ⊎ ((o.error ≡ some Error.unreadable) × (v : OutboxValue) × Unreadable locked o.store v))
unfolding process_outbox
process_outbox_ends fuel id_before locked now limit s h =
    process_loop-Ends locked now id_before (effective_limit limit) fuel 0 s h

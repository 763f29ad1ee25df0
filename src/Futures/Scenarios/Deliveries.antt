-- ===== src/Futures/Scenarios/Deliveries.antt =====
-- Tests of the outbox, and instances of the theorems on it.
use zhigu.Base.{
  ◌+◌, ◌≤◌, ◌≡◌, refl, ◌⊎◌, inl, inr, Bool, true, false, Option, none, some, String, count, update,
  least, Result, ok, Error, [], ◌∷◌, err, arith, eq_iff, str_eq, subst, Bool-cases,
}
use zhigu.Futures.Store.{Store, OutboxValue, not_object}
use zhigu.Futures.Notify.{has_dedupe_key, write_notification, new_outbox_event}
use zhigu.Futures.Outbox.{
  Outcome, process_outbox, process_loop, deliver, record_outbox_failure, is_due, with_id,
  outbox_backoff, outbox_state_after_failure,
}
use zhigu.Futures.Outbox.Progress.{Unreadable, process_outbox_ends}
use zhigu.Futures.Outbox.Promise.{Kept, is_delivered, process_outbox-keeps, write_notification-Kept}
use zhigu.Futures.Scenarios.Data.{ann, event, malformed, empty_store, to_deliver}

abbrev no_one : String → Bool
no_one _ = false

abbrev by_name : String → String → Bool
by_name _ _ = true

-- The malformed event is taken first, and does not keep the other from its delivery.
abbrev delivery : Option Outcome
delivery = process_outbox 3 by_name no_one 10 0 to_deliver

abbrev outcome : Outcome
outcome = elim delivery [
  | some o ↦ o
  | none ↦ record { processed = 0; error = none; store = empty_store }
]

ended : delivery ≡ some outcome
unfolding process_outbox process_loop least deliver record_outbox_failure update count
    outbox_state_after_failure outbox_backoff new_outbox_event
ended = refl

one_delivered : outcome.processed ≡ 1
unfolding process_outbox process_loop least deliver record_outbox_failure update count
    outbox_state_after_failure outbox_backoff new_outbox_event
one_delivered = refl

process_outbox_ends_example :
    (o : Outcome) × (process_outbox 3 by_name no_one 10 0 to_deliver ≡ some o)
    × (((o.error ≡ none) × ((2000 ≤ o.processed) ⊎ (count (is_due no_one 10) o.store.outbox ≡ 0)))
        ⊎ ((o.error ≡ some Error.unreadable) × (v : OutboxValue) × Unreadable no_one o.store v))
unfolding count
process_outbox_ends_example = process_outbox_ends 3 by_name no_one 10 0 to_deliver (omega arith)

-- A payload that is no object ends the whole call, and the delivery that is due later waits.
abbrev held_up : Outcome
held_up = record {
  processed = 0;
  error = some Error.unreadable;
  store = record empty_store { outbox = event ∷ record malformed { payload = not_object } ∷ [] };
}

held_up_by : process_outbox 3 by_name no_one 10 0 held_up.store ≡ some held_up
unfolding process_outbox process_loop least deliver record_outbox_failure new_outbox_event
held_up_by = refl

to_deliver_ids : (id : String) → count (with_id id) to_deliver.outbox ≤ 1
unfolding count
to_deliver_ids id = elim (Bool-cases (str_eq "out_1" id)) [
  | inl e ↦
      subst (λ i. count (with_id i) to_deliver.outbox ≤ 1) ((eq_iff "out_1" id).0 e) (omega arith)
  | inr e ↦ ground arith
]

to_deliver-Kept : Kept to_deliver
unfolding count
to_deliver-Kept = record {
  ids = to_deliver_ids;
  once = λ key. omega arith;
  announced = (λ e. absurd (cc), (λ e. absurd (cc), tt));
}

process_outbox-keeps_example :
    Kept outcome.store
    × (count is_delivered outcome.store.outbox
        ≡ count is_delivered to_deliver.outbox + outcome.processed)
process_outbox-keeps_example =
    process_outbox-keeps 3 by_name no_one 10 0 to_deliver outcome to_deliver-Kept ended

abbrev written : Result Store
written =
    write_notification "out_3" ann "hypothesis_expired" "hyp_1" 1 "hyp.1.expired" 10 to_deliver

abbrev left : Result Store → Store
left (ok t) = t
left (err _) = empty_store

written_ok : written ≡ ok (left written)
unfolding write_notification count
written_ok = refl

write_notification-Kept_example :
    Kept (left written) × (count (has_dedupe_key "hyp.1.expired") (left written).notifications ≡ 1)
unfolding count
write_notification-Kept_example =
    write_notification-Kept "out_3" ann "hypothesis_expired" "hyp_1" 1 "hyp.1.expired" 10 to_deliver
      (left written) refl to_deliver-Kept written_ok

-- ===== src/Futures/Scenarios/Runs.antt =====
-- Tests of the research runs, and instances of the theorems on them.
use zhigu.Base.{
  ◌*◌, ◌≡◌, refl, inl, Bool, true, false, ◌&&◌, none, some, map, String, count, update, least, All,
  Elem, null_lt, Result, ok, err, Error, arith,
}
use zhigu.Futures.Store.{canceled, queued, waiting, Run, Store}
use zhigu.Futures.Notify.{write_notification}
use zhigu.Futures.Run.{
  claimed, claim_queued_run, claim_found, renew_run_lease, executing_as, leased_to, complete_run,
  complete_with, finish_run, insert_links, cancel_run, expire_stale_runs, acknowledge_canceled_run,
  request_cancel_row, cancel_row, update_one,
}
use zhigu.Futures.Create.{
  RunView, create_run, replay_run_idempotency, create_or_replay, start_run, claims_match_selection,
  store_run, second, day_length,
}
use zhigu.Futures.Idempotency.{create_run-repeats, create_run-conflicts}
use zhigu.Futures.Lifecycle.Steps.{claim, create, complete, acknowledge, expire}
use zhigu.Futures.Lifecycle.Ids.{Distinct}
use zhigu.Futures.Lifecycle.Invariant.{is_withdrawn}
use zhigu.Futures.Lifecycle.Diagram.{Advances, Step-Advances}
use zhigu.Futures.Lifecycle.Claims.{ClaimOutcome, claim_queued_run_outcome}
use zhigu.Futures.Lifecycle.Completion.{CompletionEffect, complete_run_effect}
use zhigu.Futures.Lifecycle.Expiry.{settle_row, expire_stale_runs-map, renew_run_lease-protects}
use zhigu.Futures.Lifecycle.Histories.{
  Reach, here, next, Healthy, Reach-Healthy, terminal_forever, withdrawn_forever,
}
use zhigu.Futures.Scenarios.Data.{
  ann, shanghai, empty_store, drafted, input, other_input, executing, waiting_run, at_work, in_line,
  report,
}

abbrev after {ℓ} : {A : Type ℓ} → Result (A × Store) → Store
after (ok (_, t)) = t
after (err _) = empty_store

abbrev left : Result Store → Store
left (ok t) = t
left (err _) = empty_store

abbrev no_one : String → Bool
no_one _ = false

abbrev by_name : String → String → Bool
by_name _ _ = true

-- A run is created, claimed and completed.

abbrev creation : Result (RunView × Store)
creation = create_run shanghai "run_1" "out_1" ann "key_1" input 0 drafted

abbrev claiming : Result (Run × Store)
claiming = claim_queued_run by_name no_one "worker" second (after creation)

abbrev completion : Result Store
completion = complete_run "out_2" ann "run_1" 2 (some report) (2 * second) (after claiming)

abbrev view : RunView
view = record {
  id = "run_1";
  mode = "live";
  owner_id = 7;
  draft_id = "draft_1";
  draft_revision = 3;
  status = queued;
  stage = waiting;
  as_of = 0;
  horizon_end = 14 * day_length;
  report = none;
  failure_code = none;
  created_at = 0;
}

created : creation ≡ ok (view, after creation)
unfolding create_run replay_run_idempotency create_or_replay start_run claims_match_selection count
    store_run
created = refl

abbrev run_claimed : Run
run_claimed = claimed "worker" second (record waiting_run { horizon_end = 14 * day_length })

claimed_then : claiming ≡ ok (run_claimed, after claiming)
unfolding create_run replay_run_idempotency create_or_replay start_run claims_match_selection count
    store_run claim_queued_run claim_found update least
claimed_then = refl

completed : completion ≡ ok (left completion)
unfolding create_run replay_run_idempotency create_or_replay start_run claims_match_selection count
    store_run claim_queued_run claim_found update complete_run complete_with finish_run insert_links
    write_notification least
completed = refl

history : Reach shanghai drafted (left completion)
history =
    next
      (next (next here (create "run_1" "out_1" ann "key_1" input 0 view created))
        (claim by_name no_one "worker" second run_claimed claimed_then))
      (complete "out_2" ann "run_1" 2 (some report) (2 * second) completed)

Reach-Healthy_example : Healthy shanghai (left completion)
Reach-Healthy_example = Reach-Healthy shanghai drafted refl history

Step-Advances_example : Advances drafted.runs (after creation).runs
Step-Advances_example = Step-Advances (create "run_1" "out_1" ann "key_1" input 0 view created)

complete_run_effect_example :
    CompletionEffect ann "run_1" 2 (2 * second) (some report) (after claiming) (left completion)
complete_run_effect_example =
    complete_run_effect "out_2" ann "run_1" 2 (2 * second) (some report) (after claiming) completed

-- A retry of the request, and another one under its key.

create_run-repeats_example :
    create_run shanghai "run_9" "out_9" ann "key_1" input second (after creation)
    ≡ ok (record view { owner_id = 0; mode = "" }, after creation)
unfolding create_run replay_run_idempotency create_or_replay start_run claims_match_selection count
    store_run
create_run-repeats_example =
    create_run-repeats shanghai "run_1" "out_1" ann "key_1" input 0 drafted view (after creation)
      refl created "run_9" "out_9" second (omega arith) refl

create_run-conflicts_example :
    create_run shanghai "run_9" "out_9" ann "key_1" other_input second (after creation)
    ≡ err Error.idempotency_conflict
create_run-conflicts_example =
    create_run-conflicts shanghai "run_1" "out_1" ann "key_1" input 0 drafted view (after creation)
      refl created "run_9" "out_9" other_input second refl refl

-- One run waits in line.

in_line-Distinct : Distinct in_line.runs
unfolding count
in_line-Distinct i = ground arith

claim_queued_run_outcome_example : ClaimOutcome by_name no_one "worker" second in_line
claim_queued_run_outcome_example =
    claim_queued_run_outcome by_name no_one "worker" second in_line in_line-Distinct

expire_stale_runs-map_example :
    expire_stale_runs (100 * second) in_line
    ≡ record in_line { runs = map (settle_row (100 * second)) in_line.runs }
expire_stale_runs-map_example = expire_stale_runs-map (100 * second) in_line

-- One run is at work; its lease is renewed, or it is canceled.

abbrev renewal : Result Store
renewal = renew_run_lease ann "run_1" "worker" 2 (80 * second) at_work

renewed : renewal ≡ ok (left renewal)
unfolding renew_run_lease update_one update count
renewed = refl

renew_run_lease-protects_example :
    All
      (λ r.
        (executing_as ann "run_1" 2 r && leased_to "worker" r) ≡ true
        → null_lt r.deadline_at (100 * second) ≡ false
        → settle_row (100 * second) r ≡ r)
      (left renewal).runs
renew_run_lease-protects_example =
    renew_run_lease-protects ann "run_1" "worker" 2 (80 * second) (100 * second) at_work renewed
      (omega arith)

abbrev cancellation : Result Store
cancellation = cancel_run ann "run_1" second at_work

abbrev canceling_run : Run
canceling_run = request_cancel_row second executing

abbrev acknowledgement : Result Store
acknowledgement = acknowledge_canceled_run ann "run_1" (2 * second) (left cancellation)

acknowledged : acknowledgement ≡ ok (left acknowledgement)
unfolding cancel_run acknowledge_canceled_run update_one update count
acknowledged = refl

withdrawn_forever_example :
    (q : Run) × Elem q (left acknowledgement).runs
    × (q.id ≡ "run_1")
    × (is_withdrawn q.status ≡ true)
unfolding cancel_run update count
withdrawn_forever_example =
    withdrawn_forever {offset = shanghai} canceling_run
      (next here (acknowledge ann "run_1" (2 * second) acknowledged)) (inl refl) refl

abbrev canceled_run : Run
canceled_run = cancel_row (2 * second) canceling_run

terminal_forever_example :
    (q : Run) × Elem q (expire_stale_runs (900 * second) (left acknowledgement)).runs
    × (q.id ≡ "run_1")
    × (q.status ≡ canceled)
unfolding cancel_run acknowledge_canceled_run update count
terminal_forever_example =
    terminal_forever {offset = shanghai} canceled_run (next here (expire (900 * second) refl))
      (inl refl) refl

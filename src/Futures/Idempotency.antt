-- ===== src/Futures/Idempotency.antt =====
-- A repeated CreateRun: domain_runs.go, replayRunIdempotency.
use zhigu.Base.{
  ℕ, ◌+◌, ◌<◌, ◌≡◌, refl, inl, inr, true, false, Option, none, some, String, str_eq, eq_refl, count,
  first, ok, err, Error, arith, Option-cases,
}
use zhigu.Futures.Store.{Run, Identity, Idempotency, Store}
use zhigu.Futures.Create.{
  RunCreateInput, RunView, day_length, has_key, tombstone_of, through_json, replay_run_idempotency,
  store_run, start_run, create_or_replay, create_run, run_map, acceptable, owned_draft, new_run,
}
use zhigu.Futures.Lifecycle.Creation.{create_run-eq-ok, start_run-eq-ok}

-- The key of a request that created the run, as it is kept.
abbrev kept_row : Identity → String → String → Run → ℕ → Idempotency
kept_row me key hash value now = record {
  owner_id = me.owner_id;
  mode = me.mode;
  operation = "run.create";
  key = key;
  request_hash = hash;
  response = some (through_json value);
  expires_at = now + day_length;
}

store_run-keeps_key :
    (outbox_id : String) (me : Identity) (key : String) (input : RunCreateInput) (value : Run)
    (now : ℕ) (s : Store) {t : Store}
    → store_run outbox_id me key input value now s ≡ ok t
    → first (has_key me "run.create" key) t.idempotency
      ≡ some (kept_row me key input.hash value now)
unfolding store_run
store_run-keeps_key outbox_id me key input value now s h =
    ground (arith, eq_refl me.mode, eq_refl key, eq_refl "run.create")

replay-key :
    (me : Identity) (key hash : String) (now : ℕ) (s : Store) {existing : Option Run}
    → replay_run_idempotency me key hash now s ≡ ok existing
    → str_eq key "" ≡ false
unfolding replay_run_idempotency
replay-key me key hash now s h = ground arith

replay-unused :
    (me : Identity) (key hash : String) (now : ℕ) (s : Store) {existing : Option Run}
    → first (has_key me "run.create" key) s.idempotency ≡ none
    → replay_run_idempotency me key hash now s ≡ ok existing
    → existing ≡ none
unfolding replay_run_idempotency
replay-unused me key hash now s e h = ground arith

replay-kept :
    (me : Identity) (key hash : String) (value : Run) (now later : ℕ) (t : Store)
    → str_eq key "" ≡ false
    → first (has_key me "run.create" key) t.idempotency ≡ some (kept_row me key hash value now)
    → count (tombstone_of me value.id) t.tombstones ≡ 0
    → later < now + day_length
    → replay_run_idempotency me key hash later t ≡ ok (some (through_json value))
unfolding replay_run_idempotency
replay-kept me key hash value now later t k e seen young = ground (arith, eq_refl hash)

-- Another request under the key is told so.
replay-other :
    (me : Identity) (key hash other : String) (value : Run) (now later : ℕ) (t : Store)
    → str_eq key "" ≡ false
    → first (has_key me "run.create" key) t.idempotency ≡ some (kept_row me key hash value now)
    → str_eq hash other ≡ false
    → replay_run_idempotency me key other later t ≡ err Error.idempotency_conflict
unfolding replay_run_idempotency
replay-other me key hash other value now later t k e differ = ground arith

-- A request that creates a run under an unused key, and what is kept for the key.
create_run-keeps_key :
    (offset : ℕ) (run_id outbox_id : String) (me : Identity) (key : String) (input : RunCreateInput)
    (now : ℕ) (s : Store) {v : RunView} {t : Store}
    → first (has_key me "run.create" key) s.idempotency ≡ none
    → create_run offset run_id outbox_id me key input now s ≡ ok (v, t)
    → (acceptable input ≡ true)
      × (str_eq key "" ≡ false)
      × (value : Run) × (value.id ≡ run_id)
      × (v ≡ run_map value)
      × (first (has_key me "run.create" key) t.idempotency
          ≡ some (kept_row me key input.hash value now))
unfolding create_or_replay start_run
create_run-keeps_key offset run_id outbox_id me key input now s unused h =
    let (fit, existing, r, he, hr, shown) =
      create_run-eq-ok offset run_id outbox_id me key input now s h in
    let fresh = replay-unused me key input.hash now s unused he in
    elim (Option-cases (first (owned_draft me input.draft_id) s.drafts)) [
      | inl e ↦ absurd (let none_found = rw (fresh, create_or_replay) at hr in ground arith)
      | inr (draft, e) ↦
          let (_, _, _, _, stored, same) =
            start_run-eq-ok offset run_id outbox_id me key input now s draft e
              (rw (fresh, create_or_replay) at hr) in
          (
            fit,
            replay-key me key input.hash now s he,
            r,
            rw same refl,
            shown,
            rw same (
                store_run-keeps_key outbox_id me key input (new_run run_id me key input draft now)
                  now s stored),
          )
    ]

-- A request that is repeated within a day under its key, while its run is not deleted, creates
-- nothing: it succeeds, leaves the whole store as it is, and shows the run that the first request
-- showed, except that the owner and the mode of the scope are blank.
pub create_run-repeats :
    (offset : ℕ) (run_id outbox_id : String) (me : Identity) (key : String) (input : RunCreateInput)
    (now : ℕ) (s : Store) (v : RunView) (t : Store)
    → first (has_key me "run.create" key) s.idempotency ≡ none
    → create_run offset run_id outbox_id me key input now s ≡ ok (v, t)
    → (other_run other_outbox : String) (later : ℕ) → later < now + day_length
    → count (tombstone_of me run_id) t.tombstones ≡ 0
    → create_run offset other_run other_outbox me key input later t
      ≡ ok (record v { owner_id = 0; mode = "" }, t)
unfolding create_or_replay create_run
create_run-repeats offset run_id outbox_id me key input now s v t unused h other_run other_outbox
      later young seen =
    let (fit, named, value, same, shown, kept) =
      create_run-keeps_key offset run_id outbox_id me key input now s unused h in
    let replayed =
      replay-kept me key input.hash value now later t named kept (rw same seen) young in
    rw (create_run, fit, replayed, create_or_replay, shown) refl

-- A different request under a key that created a run fails with ErrIdempotencyConflict, at any time.
pub create_run-conflicts :
    (offset : ℕ) (run_id outbox_id : String) (me : Identity) (key : String) (input : RunCreateInput)
    (now : ℕ) (s : Store) (v : RunView) (t : Store)
    → first (has_key me "run.create" key) s.idempotency ≡ none
    → create_run offset run_id outbox_id me key input now s ≡ ok (v, t)
    → (other_run other_outbox : String) (other : RunCreateInput) (later : ℕ)
    → acceptable other ≡ true
    → str_eq input.hash other.hash ≡ false
    → create_run offset other_run other_outbox me key other later t ≡ err Error.idempotency_conflict
unfolding create_run
create_run-conflicts offset run_id outbox_id me key input now s v t unused h other_run other_outbox
      other later fit differ =
    let (_, named, value, _, _, kept) =
      create_run-keeps_key offset run_id outbox_id me key input now s unused h in
    let refused = replay-other me key input.hash other.hash value now later t named kept differ in
    rw (create_run, fit, refused) refl

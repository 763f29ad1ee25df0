-- ===== src/Futures/Lifecycle/Creation.antt =====
-- What a successful CreateRun has passed and what it does to futures_runs.
use zhigu.Base.{
  ℕ, ◌<◌, ◌≡◌, inl, inr, true, Option, none, some, ◌∷◌, String, count, first, ◌>>=◌, ok, >>=-eq-ok,
  guard-eq-ok, arith, Option-cases,
}
use zhigu.Futures.Store.{Run, Draft, Identity, Store}
use zhigu.Futures.Create.{
  RunCreateInput, owned_draft, new_run, same_run, is_open, created_on, beijing_day, store_run,
  claims_match_selection, RunView, create_run, replay_run_idempotency, start_run, run_map,
  acceptable, create_or_replay,
}
use zhigu.Futures.Lifecycle.Edits.{creates, Edit, stay}
use zhigu.Futures.Lifecycle.Runs.{Edit-subst}

store_run-runs :
    (outbox_id : String) (me : Identity) (key : String) (input : RunCreateInput) (value : Run)
    (now : ℕ) (s : Store) {t : Store}
    → store_run outbox_id me key input value now s ≡ ok t
    → (count (same_run value) s.runs ≡ 0) × (t.runs ≡ value ∷ s.runs)
unfolding store_run
store_run-runs outbox_id me key input value now s h = ground arith

-- What a new run has passed.
pub start_run-eq-ok :
    (offset : ℕ) (run_id outbox_id : String) (me : Identity) (key : String) (input : RunCreateInput)
    (now : ℕ) (s : Store) (draft : Draft) {r : Run} {t : Store}
    → first (owned_draft me input.draft_id) s.drafts ≡ some draft
    → start_run offset run_id outbox_id me key input now s ≡ ok (r, t)
    → (draft.revision ≡ input.expected_revision)
      × (claims_match_selection draft.claims input.claims ≡ true)
      × (count (is_open me) s.runs ≡ 0)
      × (count (created_on offset (beijing_day offset now) me) s.runs < 5)
      × (store_run outbox_id me key input (new_run run_id me key input draft now) now s ≡ ok t)
      × (r ≡ new_run run_id me key input draft now)
unfolding start_run
start_run-eq-ok offset run_id outbox_id me key input now s draft e h = ground arith

pub start_run-runs :
    (offset : ℕ) (run_id outbox_id : String) (me : Identity) (key : String) (input : RunCreateInput)
    (now : ℕ) (s : Store) {r : Run} {t : Store}
    → start_run offset run_id outbox_id me key input now s ≡ ok (r, t)
    → Edit offset s.runs t.runs
unfolding start_run
start_run-runs offset run_id outbox_id me key input now s h =
    elim (Option-cases (first (owned_draft me input.draft_id) s.drafts)) [
      | inl e ↦ absurd (ground arith)
      | inr (draft, e) ↦
          let (_, _, free, today, stored, _) =
            start_run-eq-ok offset run_id outbox_id me key input now s draft e h in
          let (fresh, added) =
            store_run-runs outbox_id me key input (new_run run_id me key input draft now) now s
              stored in
          Edit-subst (creates run_id me key input draft now fresh free today) added
    ]

create_or_replay-runs :
    (existing : Option Run) (offset : ℕ) (run_id outbox_id : String) (me : Identity) (key : String)
    (input : RunCreateInput) (now : ℕ) (s : Store) {r : Run} {t : Store}
    → create_or_replay existing offset run_id outbox_id me key input now s ≡ ok (r, t)
    → Edit offset s.runs t.runs
unfolding create_or_replay
create_or_replay-runs none offset run_id outbox_id me key input now s h =
    start_run-runs offset run_id outbox_id me key input now s h
create_or_replay-runs (some v) offset run_id outbox_id me key input now s h =
    Edit-subst stay (ground arith)

-- A run that was created, or one that an earlier request with the key created.
pub create_run-eq-ok :
    (offset : ℕ) (run_id outbox_id : String) (me : Identity) (key : String) (input : RunCreateInput)
    (now : ℕ) (s : Store) {v : RunView} {t : Store}
    → create_run offset run_id outbox_id me key input now s ≡ ok (v, t)
    → (acceptable input ≡ true)
      × (existing : Option Run) × (r : Run) × (replay_run_idempotency me key input.hash now s
          ≡ ok existing)
      × (create_or_replay existing offset run_id outbox_id me key input now s ≡ ok (r, t))
      × (v ≡ run_map r)
unfolding create_run
create_run-eq-ok offset run_id outbox_id me key input now s h =
    let (fit, h1) = guard-eq-ok _ _ _ h in
    let (existing, he, h2) =
      >>=-eq-ok (replay_run_idempotency me key input.hash now s)
        (λ x. create_or_replay x offset run_id outbox_id me key input now s >>= λ done.
          ok (run_map done.0, done.1))
        h1 in
    let (done, hd, h3) =
      >>=-eq-ok (create_or_replay existing offset run_id outbox_id me key input now s)
        (λ done. ok (run_map done.0, done.1)) h2 in
    (fit, existing, done.0, he, ground arith, ground arith)

pub create_run-runs :
    (offset : ℕ) (run_id outbox_id : String) (me : Identity) (key : String) (input : RunCreateInput)
    (now : ℕ) (s : Store) {v : RunView} {t : Store}
    → create_run offset run_id outbox_id me key input now s ≡ ok (v, t)
    → Edit offset s.runs t.runs
create_run-runs offset run_id outbox_id me key input now s h =
    let (_, existing, _, _, hd, _) =
      create_run-eq-ok offset run_id outbox_id me key input now s h in
    create_or_replay-runs existing offset run_id outbox_id me key input now s hd

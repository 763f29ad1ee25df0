-- ===== src/Futures/Lifecycle/Diagram.antt =====
-- The transition diagram of a research run, and that every transaction follows it.
use zhigu.Base.{
  ℕ, ◌≤◌, ◌≡◌, refl, ◌⊎◌, inl, inr, true, List, [], ◌∷◌, Related, Related-refl, Related-update,
  Related-update_known, arith, update,
}
use zhigu.Futures.Store.{
  Status, Run, Store, queued, running, succeeded, failed, canceling, canceled,
}
use zhigu.Futures.Run.{is_executing, in_flight, owned}
use zhigu.Futures.Create.{new_run}
use zhigu.Futures.Lifecycle.Edits.{
  Edit, stay, claims, creates, renews, stages, fails, acknowledges, expires, completes,
  cancels_queued, requests_cancel, expire_edit,
}
use zhigu.Futures.Lifecycle.Steps.{Step, Step-Edit}

infix 40 ◌⟶◌
pub data ◌⟶◌ : Status → Status → Type 0 where
  claimed : queued ⟶ running
  timed_out : queued ⟶ failed
  withdrawn : queued ⟶ canceled
  succeeds : {st : Status} → is_executing st ≡ true → st ⟶ succeeded
  fails_ : {st : Status} → is_executing st ≡ true → st ⟶ failed
  asked_to_stop : {st : Status} → is_executing st ≡ true → st ⟶ canceling
  acknowledged : canceling ⟶ canceled

-- Who a run belongs to never changes.
pub record SameRun (r t : Run) : Type 0 where
  pub id : t.id ≡ r.id
  pub owner_id : t.owner_id ≡ r.owner_id
  pub mode : t.mode ≡ r.mode
  pub created_at : t.created_at ≡ r.created_at
  pub deleted_at : t.deleted_at ≡ r.deleted_at
  pub generation : r.generation ≤ t.generation
  pub version : r.version ≤ t.version

-- The run stays in its status or takes one edge of the diagram.
abbrev pub Evolves : Run → Run → Type 0
Evolves r t = SameRun r t × ((t.status ≡ r.status) ⊎ (r.status ⟶ t.status))

ruleset edges = (claimed, timed_out, withdrawn, succeeds, fails_, asked_to_stop, acknowledged)

Evolves-refl : (r : Run) → Evolves r r
Evolves-refl r = ground arith

expire_edit-Evolves : (now : ℕ) (rs : List Run) → Related Evolves rs (expire_edit now rs)
unfolding update
expire_edit-Evolves now [] = tt
expire_edit-Evolves now (r ∷ rs) = (grind (arith, edges), expire_edit-Evolves now rs)

-- Every run evolves, and at most one new run is queued.
abbrev pub Advances : List Run → List Run → Type 0
Advances rs qs =
    Related Evolves rs qs
    ⊎ ((r : Run) × (ps : List Run) × (qs ≡ r ∷ ps) × (r.status ≡ queued) × Related Evolves rs ps)

pub Edit-Advances : {offset : ℕ} {rs qs : List Run} → Edit offset rs qs → Advances rs qs
Edit-Advances {rs} (creates run_id me key input draft now fresh free today) =
    inr
      (new_run run_id me key input draft now, rs, refl, refl, Related-refl Evolves rs Evolves-refl)
Edit-Advances {rs} stay = inl (Related-refl Evolves rs Evolves-refl)
Edit-Advances {rs} (claims lease_owner now run free one) =
    inl (Related-update Evolves _ _ rs Evolves-refl (λ r e. grind (arith, edges)))
Edit-Advances {rs} (renews me run_id lease_owner generation now) =
    inl (Related-update Evolves _ _ rs Evolves-refl (λ r e. grind (arith, edges)))
Edit-Advances {rs} (stages me run_id generation st now) =
    inl (Related-update Evolves _ _ rs Evolves-refl (λ r e. grind (arith, edges)))
Edit-Advances {rs} (fails me run_id generation code now) =
    inl (Related-update Evolves _ _ rs Evolves-refl (λ r e. grind (arith, edges)))
Edit-Advances {rs} (acknowledges me run_id now) =
    inl (Related-update Evolves _ _ rs Evolves-refl (λ r e. grind (arith, edges)))
Edit-Advances {rs} (expires now) = inl (expire_edit-Evolves now rs)
Edit-Advances {rs} (completes me run_id generation report now) =
    inl (Related-update Evolves _ _ rs Evolves-refl (λ r e. grind (arith, edges)))
Edit-Advances {rs} (cancels_queued me run_id now) =
    inl (Related-update Evolves _ _ rs Evolves-refl (λ r e. grind (arith, edges)))
Edit-Advances {rs} (requests_cancel me run_id now live) = inl (
    Related-update_known (λ r. owned me run_id r ≡ true → in_flight r.status ≡ true) Evolves _ _ rs
      Evolves-refl (λ r e q. grind (arith, edges, q e)) live)

-- Every transaction moves every run along the diagram, by one edge at most.
pub Step-Advances : {offset : ℕ} {s t : Store} → Step offset s t → Advances s.runs t.runs
Step-Advances st = Edit-Advances (Step-Edit st)

-- ===== src/Futures/Lifecycle/Histories.antt =====
-- What holds after any history of committed transactions.
use zhigu.Base.{
  ℕ, ◌≤◌, ◌≡◌, refl, subst, ◌∙◌, inl, inr, true, List, [], ◌∷◌, count, All, Elem, Related, arith,
}
use zhigu.Futures.Store.{Status, Run, Store, Identity}
use zhigu.Futures.Run.{is_active, is_terminal}
use zhigu.Futures.Create.{is_open, created_on, beijing_day}
use zhigu.Futures.Lifecycle.Steps.{Step}
use zhigu.Futures.Lifecycle.Invariant.{RowInv, is_withdrawn, Step-RowInv}
use zhigu.Futures.Lifecycle.Ids.{Distinct, Step-Distinct}
use zhigu.Futures.Lifecycle.Slots.{Step-slots}
use zhigu.Futures.Lifecycle.Quota.{Step-open, Step-daily}
use zhigu.Futures.Lifecycle.Diagram.{
  ◌⟶◌, claimed, timed_out, withdrawn, succeeds, fails_, asked_to_stop, acknowledged, Evolves,
  Advances, Step-Advances,
}

pub data Reach (offset : ℕ) (s : Store) : Store → Type 0 where
  here : Reach offset s s
  next : {t u : Store} → Reach offset s t → Step offset t u → Reach offset s u

pub record Healthy (offset : ℕ) (s : Store) : Type 0 where
  pub distinct : Distinct s.runs
  pub rows : All RowInv s.runs
  pub slots : count is_active s.runs ≤ 2
  pub one_open : (you : Identity) → count (is_open you) s.runs ≤ 1
  pub five_a_day :
      (you : Identity) (t : ℕ) → count (created_on offset (beijing_day offset t) you) s.runs ≤ 5

pub Step-Healthy :
    {offset : ℕ} {s t : Store} → Step offset s t → Healthy offset s → Healthy offset t
Step-Healthy st h = record {
  distinct = Step-Distinct st h.distinct;
  rows = Step-RowInv st h.rows;
  slots = Step-slots st h.slots;
  one_open = λ you. Step-open you st (h.one_open you);
  five_a_day = λ you t. Step-daily t you st (h.five_a_day you t);
}

Reach-from_Healthy :
    {offset : ℕ} {s t : Store} → Healthy offset s → Reach offset s t → Healthy offset t
Reach-from_Healthy h here = h
Reach-from_Healthy h (next r st) = Step-Healthy st (Reach-from_Healthy h r)

empty-Healthy : (offset : ℕ) (s : Store) → s.runs ≡ [] → Healthy offset s
unfolding count
empty-Healthy offset s e = record {
  distinct = λ i. rw e (ground arith);
  rows = rw e tt;
  slots = rw e (ground arith);
  one_open = λ you. rw e (ground arith);
  five_a_day = λ you t. rw e (ground arith);
}

-- From an empty table, every history of committed transactions keeps the ids distinct, every run
-- within its invariant, at most two runs executing, at most one open run of each user, and at most five runs of each user
-- created on one Shanghai day.
pub Reach-Healthy :
    (offset : ℕ) (s : Store) {t : Store} → s.runs ≡ [] → Reach offset s t → Healthy offset t
Reach-Healthy offset s e r = Reach-from_Healthy (empty-Healthy offset s e) r

-- No edge of the diagram leaves a terminal status.
terminal_stuck : {a b : Status} → a ⟶ b → is_terminal a ≡ true → ⊥
terminal_stuck claimed h = cc
terminal_stuck timed_out h = cc
terminal_stuck withdrawn h = cc
terminal_stuck {a} (succeeds e) h = ground arith
terminal_stuck {a} (fails_ e) h = ground arith
terminal_stuck {a} (asked_to_stop e) h = ground arith
terminal_stuck acknowledged h = cc

-- A set of statuses that no edge leaves holds a run through every history.
module _ (S : Status → Type 0) (closed : (a b : Status) → a ⟶ b → S a → S b) where
  -- The run is still there, and still in the set.
  abbrev Keeps : Run → List Run → Type 0
  Keeps r qs = (q : Run) × Elem q qs × (q.id ≡ r.id) × S q.status

  Evolves-Keeps : (r q : Run) → Evolves r q → S r.status → S q.status
  Evolves-Keeps r q (same, inl e) h = rw e h
  Evolves-Keeps r q (same, inr edge) h = closed r.status q.status edge h

  Related-Keeps :
      (r : Run) (rs qs : List Run) → Related Evolves rs qs → Elem r rs → S r.status → Keeps r qs
  Related-Keeps r [] qs e m h = absurd m
  Related-Keeps r (x ∷ rs) [] e m h = absurd e
  Related-Keeps r (x ∷ rs) (q ∷ qs) e (inl p) h =
      let moved : Evolves r q = subst (λ y. Evolves y q) p e.0 in
      (q, inl refl, moved.0.id, Evolves-Keeps r q moved h)
  Related-Keeps r (x ∷ rs) (q ∷ qs) e (inr m) h =
      let (y, my, i, st) = Related-Keeps r rs qs e.1 m h in (y, inr my, i, st)

  Advances-Keeps :
      (r : Run) (rs qs : List Run) → Advances rs qs → Elem r rs → S r.status → Keeps r qs
  Advances-Keeps r rs qs (inl e) m h = Related-Keeps r rs qs e m h
  Advances-Keeps r rs qs (inr (n, ps, p, _, e)) m h =
      let (y, my, i, st) = Related-Keeps r rs ps e m h in (y, rw p (inr my), i, st)

  Reach-Keeps :
      {offset : ℕ} {s t : Store} (r : Run)
      → Reach offset s t
      → Elem r s.runs
      → S r.status
      → Keeps r t.runs
  Reach-Keeps r here m h = (r, m, refl, h)
  Reach-Keeps r (next {t} {u} past st) m h =
      let (y, my, i, e) = Reach-Keeps r past m h in
      let (z, mz, j, f) = Advances-Keeps y t.runs u.runs (Step-Advances st) my e in
      (z, mz, j ∙ i, f)

terminal_closed : (st : Status) → is_terminal st ≡ true → (a b : Status) → a ⟶ b → a ≡ st → b ≡ st
terminal_closed st h a b edge e = absurd (terminal_stuck edge (rw e h))

-- A run that has succeeded, failed or been canceled is still there after every history, under the
-- same status.
pub terminal_forever :
    {offset : ℕ} {s t : Store} (r : Run)
    → Reach offset s t
    → Elem r s.runs
    → is_terminal r.status ≡ true
    → (q : Run) × Elem q t.runs × (q.id ≡ r.id) × (q.status ≡ r.status)
terminal_forever r past m h =
    Reach-Keeps (λ st. st ≡ r.status) (terminal_closed r.status h) r past m refl

withdrawn_closed : (a b : Status) → a ⟶ b → is_withdrawn a ≡ true → is_withdrawn b ≡ true
withdrawn_closed a b claimed h = cc
withdrawn_closed a b timed_out h = cc
withdrawn_closed a b withdrawn h = cc
withdrawn_closed a b (succeeds e) h = ground arith
withdrawn_closed a b (fails_ e) h = ground arith
withdrawn_closed a b (asked_to_stop e) h = refl
withdrawn_closed a b acknowledged h = refl

-- A run whose cancellation was requested is never anything but canceling or canceled again: in
-- particular it neither succeeds nor fails.
pub withdrawn_forever :
    {offset : ℕ} {s t : Store} (r : Run)
    → Reach offset s t
    → Elem r s.runs
    → is_withdrawn r.status ≡ true
    → (q : Run) × Elem q t.runs × (q.id ≡ r.id) × (is_withdrawn q.status ≡ true)
withdrawn_forever r past m h =
    Reach-Keeps (λ st. is_withdrawn st ≡ true) withdrawn_closed r past m h

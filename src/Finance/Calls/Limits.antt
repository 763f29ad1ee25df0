-- ===== src/Finance/Calls/Limits.antt =====
-- No run makes more calls of a kind than its snapshot allows.
use native.Mathlib.Nat.{le_trans}
use zhigu.Base.{
  ◌+◌, ◌≤◌, ◌<◌, ◌≡◌, refl, sym, subst, inl, inr, Bool, true, false, List, ◌∷◌, String, str_eq,
  eq_iff, count, count_mono, count-update-le_known, first, update, All, All-update, ok, arith,
  Bool-cases, Option-cases,
}
use zhigu.Finance.Calls.{
  UsageLedger, BudgetRequest, Reservation, ObservedUsage, Books, is_charged, charged_to_run,
  in_scope, snapshot_of, run_max, usage_row, request_snapshot, reserve_new, reserve, reconcile,
  observe, has_request,
}

-- One committed transaction.
pub data CallStep (b c : Books) : Type 0 where
  reserves :
      (id : String) (request : BudgetRequest) (r : Reservation)
      → reserve id request b ≡ ok (r, c)
      → CallStep b c
  reconciles : (id : String) (w : ObservedUsage) → reconcile id w b ≡ ok c → CallStep b c

-- Every row counts, and of each run and kind there are no more than the snapshot allows.
pub record Charged (b : Books) : Type 0 where
  pub standing : All (λ u. is_charged u.status ≡ true) b.usage
  pub within :
      (kind run_id : String)
      → str_eq run_id "" ≡ false
      → count (charged_to_run kind run_id) b.usage ≤ run_max kind (snapshot_of run_id b.runs)

reserve_new-eq-ok :
    (id : String) (request : BudgetRequest) (b c : Books) {r : Reservation}
    → reserve_new id request b ≡ ok (r, c)
    → (count (in_scope request) b.usage < run_max request.kind (request_snapshot request b.runs))
      × (c ≡ record b { usage = usage_row id request ∷ b.usage })
unfolding reserve_new
reserve_new-eq-ok id request b c h = ground arith

in_scope-run :
    (request : BudgetRequest) (u : UsageLedger)
    → str_eq request.run_id "" ≡ false
    → charged_to_run request.kind request.run_id u ≡ true
    → in_scope request u ≡ true
in_scope-run request u named h = ground arith

-- The new row's own run and kind had room for it.
own_row-within :
    (id : String) (request : BudgetRequest) (b : Books)
    → count (in_scope request) b.usage < run_max request.kind (request_snapshot request b.runs)
    → str_eq request.run_id "" ≡ false
    → count (charged_to_run request.kind request.run_id) (usage_row id request ∷ b.usage)
      ≤ run_max request.kind (snapshot_of request.run_id b.runs)
unfolding count
own_row-within id request b room named =
    let narrower =
      count_mono (charged_to_run request.kind request.run_id) (in_scope request) b.usage
        (λ u. in_scope-run request u named) in
    let added =
      one_more (charged_to_run request.kind request.run_id) (usage_row id request) b.usage in
    ground arith
  where
    one_more :
        (test : UsageLedger → Bool) (u : UsageLedger) (us : List UsageLedger)
        → count test (u ∷ us) ≤ 1 + count test us
    one_more test u us = ground arith

run_of :
    (id : String) (request : BudgetRequest) (kind run_id : String)
    → charged_to_run kind run_id (usage_row id request) ≡ true
    → (request.run_id ≡ run_id) × (request.kind ≡ kind)
run_of id request kind run_id e = elim (Bool-cases (str_eq request.run_id "")) [
  | inl k ↦ absurd (ground arith)
  | inr k ↦
      ((eq_iff request.run_id run_id).0 (ground arith), (eq_iff request.kind kind).0 (ground arith))
]

-- What the new row adds to a run and kind.
new_row-within :
    (id : String) (request : BudgetRequest) (b : Books) (kind run_id : String)
    → count (in_scope request) b.usage < run_max request.kind (request_snapshot request b.runs)
    → str_eq run_id "" ≡ false
    → count (charged_to_run kind run_id) b.usage ≤ run_max kind (snapshot_of run_id b.runs)
    → count (charged_to_run kind run_id) (usage_row id request ∷ b.usage)
      ≤ run_max kind (snapshot_of run_id b.runs)
unfolding count
new_row-within id request b kind run_id room named h =
    elim (Bool-cases (charged_to_run kind run_id (usage_row id request))) [
      | inl e ↦
          let (same_run, same_kind) = run_of id request kind run_id e in
          subst
            (λ k.
              count (charged_to_run k run_id) (usage_row id request ∷ b.usage)
              ≤ run_max k (snapshot_of run_id b.runs))
            same_kind
            (subst
              (λ i.
                count (charged_to_run request.kind i) (usage_row id request ∷ b.usage)
                ≤ run_max request.kind (snapshot_of i b.runs))
              same_run
              (own_row-within id request b room
                (subst (λ i. str_eq i "" ≡ false) (sym same_run) named)))
      | inr e ↦ ground arith
    ]

reserve-Charged :
    (id : String) (request : BudgetRequest) (b c : Books) {r : Reservation}
    → reserve id request b ≡ ok (r, c)
    → Charged b
    → Charged c
unfolding reserve
reserve-Charged id request b c {r} h k =
    elim (Option-cases (first (has_request request.request_id) b.usage)) [
      | inr (u, e) ↦ subst Charged (ground arith) k
      | inl e ↦
          let new : reserve_new id request b ≡ ok (r, c) = ground arith in
          let (room, added) = reserve_new-eq-ok id request b c new in
          rw added (record {
            standing = (refl, k.standing);
            within = λ kind run_id named.
                new_row-within id request b kind run_id room named (k.within kind run_id named);
          })
    ]

observe-charged : (w : ObservedUsage) (u : UsageLedger) → is_charged (observe w u).status ≡ true
observe-charged w u = ground arith

reconcile-Charged :
    (id : String) (w : ObservedUsage) (b c : Books)
    → reconcile id w b ≡ ok c
    → Charged b
    → Charged c
unfolding reconcile
reconcile-Charged id w b c h k =
    elim (Option-cases (first (λ (u : UsageLedger). str_eq u.id id) b.usage)) [
      | inl e ↦ absurd (ground arith)
      | inr (u, e) ↦
          let moved : c ≡ record b {
            usage = update (λ (u : UsageLedger). str_eq u.id id) (observe w) b.usage;
          } =
            ground arith in
          rw moved (record {
            standing = All-update _ _ (observe w) b.usage (λ v _ _. observe-charged w v) k.standing;
            within = λ kind run_id named.
                le_trans
                  (count-update-le_known (λ v. is_charged v.status ≡ true)
                    (charged_to_run kind run_id) _ (observe w) b.usage
                    (λ v _ standing p. ground arith) k.standing)
                  (k.within kind run_id named);
          })
    ]

-- Every reservation and every reconciliation keeps each run within its snapshot: of each kind of call
-- no more are charged to it than the snapshot allows, whatever was observed of them.
pub CallStep-Charged : {b c : Books} → CallStep b c → Charged b → Charged c
CallStep-Charged {b} {c} (reserves id request r h) k = reserve-Charged id request b c h k
CallStep-Charged {b} {c} (reconciles id w h) k = reconcile-Charged id w b c h k

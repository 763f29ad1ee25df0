-- ===== src/Finance/Verdict/Report.antt =====
-- JudgeReport: the verdict of a report from those of its claims.
use zhigu.Base.{
  ◌<◌, ◌≡◌, ◌↔◌, refl, inl, inr, Bool, true, false, List, [], ◌∷◌, map, length, All, Elem, arith,
  Bool-cases,
}
use zhigu.Finance.Verdict.{
  Verdict, mixed, supported, challenged, insufficient, ClaimResult, some_verdict, is_mixed,
  is_supported, is_challenged, is_insufficient, judge_report,
}

abbrev pub verdicts : List ClaimResult → List Verdict
verdicts rs = map (λ (r : ClaimResult). r.verdict) rs

-- A test that only one verdict passes.
module _ (v : Verdict) (test : Verdict → Bool) (hit : test v ≡ true)
    (only : (w : Verdict) → test w ≡ true → w ≡ v) where
  some_verdict-Elem : (rs : List ClaimResult) → some_verdict test rs ≡ true → Elem v (verdicts rs)
  some_verdict-Elem [] h = absurd (cc)
  some_verdict-Elem (r ∷ rs) h = elim (Bool-cases (test r.verdict)) [
    | inl e ↦ inl (only r.verdict e)
    | inr e ↦ inr (some_verdict-Elem rs (ground arith))
  ]

  Elem-some_verdict : (rs : List ClaimResult) → Elem v (verdicts rs) → some_verdict test rs ≡ true
  Elem-some_verdict [] m = absurd m
  Elem-some_verdict (r ∷ rs) (inl e) = ground (arith, e, hit)
  Elem-some_verdict (r ∷ rs) (inr m) = ground (arith, Elem-some_verdict rs m)

  same_some :
      (xs ys : List ClaimResult)
      → (Elem v (verdicts xs) → Elem v (verdicts ys))
      → (Elem v (verdicts ys) → Elem v (verdicts xs))
      → some_verdict test xs ≡ some_verdict test ys
  same_some xs ys to from = elim (Bool-cases (some_verdict test xs)) [
    | inl e ↦ let there = Elem-some_verdict ys (to (some_verdict-Elem xs e)) in ground arith
    | inr e ↦ elim (Bool-cases (some_verdict test ys)) [
      | inl k ↦
          let there = Elem-some_verdict xs (from (some_verdict-Elem ys k)) in absurd (ground arith)
      | inr k ↦ ground arith
    ]
  ]

only_mixed : (w : Verdict) → is_mixed w ≡ true → w ≡ mixed
only_mixed w h = ground arith

only_supported : (w : Verdict) → is_supported w ≡ true → w ≡ supported
only_supported w h = ground arith

only_challenged : (w : Verdict) → is_challenged w ≡ true → w ≡ challenged
only_challenged w h = ground arith

only_insufficient : (w : Verdict) → is_insufficient w ≡ true → w ≡ insufficient
only_insufficient w h = ground arith

-- The verdict of a report depends only on which verdicts its claims have, not on their order and
-- not on how many have each.
pub judge_report_same :
    (xs ys : List ClaimResult)
    → ((v : Verdict) → Elem v (verdicts xs) ↔ Elem v (verdicts ys))
    → judge_report xs ≡ judge_report ys
unfolding judge_report
judge_report_same xs ys same =
    rw
      (
        same_some mixed is_mixed refl only_mixed xs ys (same mixed).0 (same mixed).1,
        same_some supported is_supported refl only_supported xs ys (same supported).0
            (same supported).1,
        same_some challenged is_challenged refl only_challenged xs ys (same challenged).0
            (same challenged).1,
        same_some insufficient is_insufficient refl only_insufficient xs ys (same insufficient).0
            (same insufficient).1,
        judge_report,
      )
      refl

all_verdict :
    (rs : List ClaimResult)
    → (All (λ r. r.verdict ≡ supported) rs
        → (some_verdict is_mixed rs ≡ false)
          × (some_verdict is_challenged rs ≡ false)
          × (some_verdict is_insufficient rs ≡ false))
      × (All (λ r. r.verdict ≡ challenged) rs
          → (some_verdict is_mixed rs ≡ false)
            × (some_verdict is_supported rs ≡ false)
            × (some_verdict is_insufficient rs ≡ false))
all_verdict [] = ((λ h. (refl, refl, refl)), (λ h. (refl, refl, refl)))
all_verdict (r ∷ rs) =
    let (s, c) = all_verdict rs in
    (
      (λ (e, h). let (x, y, z) = s h in rw e (x, y, z)),
      (λ (e, h). let (x, y, z) = c h in rw e (x, y, z)),
    )

some_first :
    (test : Verdict → Bool) (v : Verdict) (rs : List ClaimResult)
    → test v ≡ true
    → 0 < length rs
    → All (λ r. r.verdict ≡ v) rs
    → some_verdict test rs ≡ true
some_first test v [] t pos h = absurd (ground arith)
some_first test v (r ∷ rs) t pos h = let e = h.0 in ground arith

only_left :
    (rs : List ClaimResult)
    → some_verdict is_mixed rs ≡ false
    → some_verdict is_insufficient rs ≡ false
    → (some_verdict is_challenged rs ≡ false → All (λ r. r.verdict ≡ supported) rs)
      × (some_verdict is_supported rs ≡ false → All (λ r. r.verdict ≡ challenged) rs)
only_left [] m i = ((λ _. tt), (λ _. tt))
only_left (r ∷ rs) m i =
    let (s, c) = only_left rs (ground arith) (ground arith) in
    ((λ h. (ground arith, s (ground arith))), (λ h. (ground arith, c (ground arith))))

some_pos :
    (test : Verdict → Bool) (rs : List ClaimResult) → some_verdict test rs ≡ true → 0 < length rs
some_pos test [] h = absurd (cc)
some_pos test (r ∷ rs) h = omega arith

-- A report is "supported" exactly when it has claims and every one of them is, and "challenged"
-- exactly when it has claims and every one of them is.
pub judge_report-unanimous :
    (rs : List ClaimResult)
    → ((judge_report rs ≡ supported) ↔ ((0 < length rs) × All (λ r. r.verdict ≡ supported) rs))
      × ((judge_report rs ≡ challenged) ↔ ((0 < length rs) × All (λ r. r.verdict ≡ challenged) rs))
unfolding judge_report
judge_report-unanimous rs =
    let (all_s, all_c) = all_verdict rs in
    (
      (
        (λ h. (
          some_pos is_supported rs (ground arith),
          (only_left rs (ground arith) (ground arith)).0 (ground arith),
        )),
        (λ (pos, h).
            let (x, y, z) = all_s h in
            let w = some_first is_supported supported rs refl pos h in ground arith),
      ),
      (
        (λ h. (
          some_pos is_challenged rs (ground arith),
          (only_left rs (ground arith) (ground arith)).1 (ground arith),
        )),
        (λ (pos, h).
            let (x, y, z) = all_c h in
            let w = some_first is_challenged challenged rs refl pos h in ground arith),
      ),
    )

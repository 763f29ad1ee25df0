-- ===== src/Finance/Verdict/Grounds.antt =====
-- JudgeClaim: the grounds of a verdict.
use zhigu.Base.{
  ◌≡◌, ◌↔◌, ◌⊎◌, inl, inr, refl, true, false, List, [], ◌∷◌, ◌++◌, String, str_eq, eq_iff, eq_refl,
  arith, Bool-cases, subst, ◌≢◌,
}
use zhigu.Finance.Verdict.{
  ClaimItem, Argument, supported, insufficient, ClaimResult, looks_like_outlook, member,
  relevant_args, all_ids, evidence_ids, contradicts, is_empty, judge_claim,
}
use zhigu.Finance.Verdict.Claims.{
  Weighed, contradicted, only_challenged, upheld, unclear, weigh-Weighed, evidence_ids_complete,
  evidence_ids_sound, relevant_args-cites, relevant_args-ids,
}
use zhigu.Finance.Verdict.Cited.{member-append, unique_from_complete}

-- A list of ids is empty exactly when none stands in it.
is_empty-none : (ids : List String) (id : String) → member id ids ≡ true → is_empty ids ≡ false
is_empty-none [] id m = absurd (cc)
is_empty-none (x ∷ ids) id m = ground arith

is_empty-some : (ids : List String) → is_empty ids ≡ false → (id : String) × (member id ids ≡ true)
is_empty-some [] h = absurd (cc)
is_empty-some (x ∷ ids) h = (x, ground (arith, eq_refl x))

contradicts-some : (sup chal : List Argument) → contradicts sup chal ≡ true → sup ≢ []
unfolding contradicts
contradicts-some [] chal h e = cc
contradicts-some (a ∷ sup) chal h e = cc

-- The verdict is "supported" exactly when the claim is no outlook, nothing relevant contradicts it,
-- and some relevant supporting argument cites an id that is not blank; whether there are challenging
-- arguments with evidence makes no difference.
pub judge_claim-supported :
    (item : ClaimItem) (support challenge : List Argument)
    → ((judge_claim item support challenge).verdict ≡ supported) ↔ (
        (looks_like_outlook item.text item.claim_type ≡ false)
        × (contradicts (relevant_args item support) (relevant_args item challenge) ≡ false)
        × (id : String) × (member id (all_ids (relevant_args item support)) ≡ true)
        × (str_eq id "" ≡ false))
unfolding judge_claim
judge_claim-supported item support challenge =
    elim (Bool-cases (looks_like_outlook item.text item.claim_type)) [
      | inl e ↦ rw (e, judge_claim) ((λ h. absurd (cc)), (λ (h, _, _, _, _). absurd (cc)))
      | inr e ↦
          rw (e, judge_claim)
            (weighed (
              weigh-Weighed item.claim_id (relevant_args item support)
                (relevant_args item challenge)))
    ]
  where
    weighed :
        {claim_id : String} {sup chal : List Argument} {r : ClaimResult}
        → Weighed claim_id sup chal r
        → (r.verdict ≡ supported) ↔ (
            (false ≡ false)
            × (contradicts sup chal ≡ false)
            × (id : String) × (member id (all_ids sup) ≡ true)
            × (str_eq id "" ≡ false))
    weighed (contradicted e) = ((λ h. absurd (cc)), (λ (_, k, _, _, _). absurd (cc)))
    weighed {sup = sup} (only_challenged e s c) = (
      (λ h. absurd (cc)),
      (λ (_, _, id, m, b).
          absurd (ground (arith, is_empty-none _ id (evidence_ids_complete sup id m b)))),
    )
    weighed {sup = sup} (upheld e s) = (
      (λ h.
          let (id, k) = is_empty-some (evidence_ids sup) s in
          let (m, b) = evidence_ids_sound sup id k in (refl, e, id, m, b)),
      (λ h. refl),
    )
    weighed {sup = sup} (unclear e s c) = (
      (λ h. absurd (cc)),
      (λ (_, _, id, m, b).
          absurd (ground (arith, is_empty-none _ id (evidence_ids_complete sup id m b)))),
    )

not_blank :
    (args : List Argument) (id : String)
    → member "" (all_ids args) ≡ false
    → member id (all_ids args) ≡ true
    → str_eq id "" ≡ false
not_blank args id clean m = elim (Bool-cases (str_eq id "")) [
  | inl e ↦
      let blank = subst (λ i. member i (all_ids args) ≡ true) ((eq_iff id "").0 e) m in
      absurd (ground arith)
  | inr e ↦ e
]

Weighed-founded :
    {claim_id : String} {sup chal : List Argument} {r : ClaimResult}
    → Weighed claim_id sup chal r
    → (sup ≡ []) ⊎ ((id : String) × (member id (all_ids sup) ≡ true))
    → member "" (all_ids sup) ≡ false
    → r.verdict ≢ insufficient
    → is_empty r.evidence_ids ≡ false
Weighed-founded {sup = sup} {chal = chal} (contradicted e) (inl none_here) clean found =
    absurd (contradicts-some sup chal e none_here)
Weighed-founded {sup = sup} {chal = chal} (contradicted e) (inr (id, m)) clean found =
    let b = not_blank sup id clean m in
    let cited = evidence_ids_complete sup id m b in
    let both = member-append id (evidence_ids sup) (evidence_ids chal) in
    is_empty-none _ id
      (unique_from_complete id [] (evidence_ids sup ++ evidence_ids chal) (ground arith) b refl)
Weighed-founded (only_challenged e s c) some_id clean found = c
Weighed-founded (upheld e s) some_id clean found = s
Weighed-founded (unclear e s c) some_id clean found = absurd (found refl)

-- Where no supporting argument cites a blank id, a verdict that is not "insufficient" cites something.
pub judge_claim-founded :
    (item : ClaimItem) (support challenge : List Argument)
    → member "" (all_ids support) ≡ false
    → (judge_claim item support challenge).verdict ≢ insufficient
    → is_empty (judge_claim item support challenge).evidence_ids ≡ false
unfolding judge_claim
judge_claim-founded item support challenge clean found =
    elim (Bool-cases (looks_like_outlook item.text item.claim_type)) [
      | inl e ↦ absurd (found (rw (e, judge_claim) refl))
      | inr e ↦
          rw (e, judge_claim)
            (Weighed-founded
              (weigh-Weighed item.claim_id (relevant_args item support)
                (relevant_args item challenge))
              (relevant_args-cites item support) (still_clean (Bool-cases _))
              (rw (e, judge_claim) at found))
    ]
  where
    still_clean :
        (member "" (all_ids (relevant_args item support)) ≡ true)
          ⊎ (member "" (all_ids (relevant_args item support)) ≡ false)
        → member "" (all_ids (relevant_args item support)) ≡ false
    still_clean (inl h) = let m = relevant_args-ids item support "" h in absurd (ground arith)
    still_clean (inr h) = h

-- ===== src/Finance/Verdict/Claims.antt =====
-- JudgeClaim: whose evidence a verdict cites, and when it has some.
use zhigu.Base.{
  ◌≡◌, ◌⊎◌, inl, inr, refl, true, false, ◌||◌, List, [], ◌∷◌, ◌++◌, String, str_eq, eq_refl, length,
  arith, Bool-cases, ◌==◌,
}
use zhigu.Finance.Verdict.{
  ClaimItem, Argument, supported, challenged, insufficient, ClaimResult, looks_like_outlook, member,
  is_relevant, filter_relevant, relevant_args, all_ids, evidence_ids, contradicts, is_empty, result,
  mixed_result, weigh, judge_claim,
}
use zhigu.Finance.Verdict.Cited.{
  member-append, unique_from_sound, unique_from_complete, unique_from-distinct, distinct,
}

filter_relevant-ids :
    (item : ClaimItem) (args : List Argument) (id : String)
    → member id (all_ids (filter_relevant item args)) ≡ true
    → member id (all_ids args) ≡ true
filter_relevant-ids item [] id h = h
filter_relevant-ids item (a ∷ args) id h =
    let rest = member-append id a.evidence_ids (all_ids (filter_relevant item args)) in
    let whole = member-append id a.evidence_ids (all_ids args) in
    elim (Bool-cases (is_relevant item a)) [
      | inl e ↦
          let m = rw (e, filter_relevant) at h in ground (arith, filter_relevant-ids item args id)
      | inr e ↦
          let m = filter_relevant-ids item args id (rw (e, filter_relevant) at h) in ground arith
    ]

pub relevant_args-ids :
    (item : ClaimItem) (args : List Argument) (id : String)
    → member id (all_ids (relevant_args item args)) ≡ true
    → member id (all_ids args) ≡ true
unfolding relevant_args
relevant_args-ids item args id h = elim (Bool-cases (str_eq item.claim_type "assumption")) [
  | inl e ↦ absurd (ground arith)
  | inr e ↦ filter_relevant-ids item args id (rw (e, relevant_args) at h)
]

-- An argument that is relevant cites something.
filter_relevant-cites :
    (item : ClaimItem) (args : List Argument)
    → (filter_relevant item args ≡ [])
      ⊎ ((id : String) × (member id (all_ids (filter_relevant item args)) ≡ true))
filter_relevant-cites item [] = inl refl
filter_relevant-cites item (a ∷ args) = elim (Bool-cases (is_relevant item a)) [
  | inl e ↦
      rw (e, filter_relevant)
        (inr (head_id a.evidence_ids (all_ids (filter_relevant item args)) (ground arith)))
  | inr e ↦ rw (e, filter_relevant) (filter_relevant-cites item args)
]
  where
    head_id :
        (ids more : List String)
        → (length ids == 0) ≡ false
        → (id : String) × (member id (ids ++ more) ≡ true)
    head_id [] more h = absurd (cc)
    head_id (id ∷ ids) more h = (id, ground (arith, eq_refl id))

pub relevant_args-cites :
    (item : ClaimItem) (args : List Argument)
    → (relevant_args item args ≡ [])
      ⊎ ((id : String) × (member id (all_ids (relevant_args item args)) ≡ true))
unfolding relevant_args
relevant_args-cites item args = elim (Bool-cases (str_eq item.claim_type "assumption")) [
  | inl e ↦ rw (e, relevant_args) (inl refl)
  | inr e ↦ rw (e, relevant_args) (filter_relevant-cites item args)
]

pub evidence_ids_sound :
    (args : List Argument) (id : String)
    → member id (evidence_ids args) ≡ true
    → (member id (all_ids args) ≡ true) × (str_eq id "" ≡ false)
unfolding evidence_ids
evidence_ids_sound args id h = let (m, b, _) = unique_from_sound id [] (all_ids args) h in (m, b)

pub evidence_ids_complete :
    (args : List Argument) (id : String)
    → member id (all_ids args) ≡ true
    → str_eq id "" ≡ false
    → member id (evidence_ids args) ≡ true
unfolding evidence_ids
evidence_ids_complete args id m b = unique_from_complete id [] (all_ids args) m b refl

evidence_ids-distinct : (args : List Argument) → distinct (evidence_ids args) ≡ true
unfolding evidence_ids
evidence_ids-distinct args = unique_from-distinct [] (all_ids args)

-- Each id that is cited is an argument's and not blank, none is cited twice, and a claim whose
-- evidence is insufficient cites nothing.
abbrev pub Drawn : List Argument → List Argument → ClaimResult → Type 0
Drawn support challenge r =
    ((id : String)
      → member id r.evidence_ids ≡ true
      → ((member id (all_ids support) || member id (all_ids challenge)) ≡ true)
        × (str_eq id "" ≡ false))
    × (distinct r.evidence_ids ≡ true)
    × (r.verdict ≡ insufficient → r.evidence_ids ≡ [])

-- The four ends of the switch.
pub data Weighed (claim_id : String) (sup chal : List Argument) : ClaimResult → Type 0 where
  contradicted :
      contradicts sup chal ≡ true → Weighed claim_id sup chal (mixed_result claim_id sup chal)
  only_challenged :
      contradicts sup chal ≡ false
      → is_empty (evidence_ids sup) ≡ true
      → is_empty (evidence_ids chal) ≡ false
      → Weighed claim_id sup chal (result claim_id challenged (evidence_ids chal) "仅反驳证据成立")
  upheld :
      contradicts sup chal ≡ false
      → is_empty (evidence_ids sup) ≡ false
      → Weighed claim_id sup chal (result claim_id supported (evidence_ids sup) "仅支持证据成立")
  unclear :
      contradicts sup chal ≡ false
      → is_empty (evidence_ids sup) ≡ true
      → is_empty (evidence_ids chal) ≡ true
      → Weighed claim_id sup chal (result claim_id insufficient [] "证据不足")

pub weigh-Weighed :
    (claim_id : String) (sup chal : List Argument)
    → Weighed claim_id sup chal (weigh claim_id sup chal)
unfolding weigh
weigh-Weighed claim_id sup chal = elim (Bool-cases (contradicts sup chal)) [
  | inl e ↦ rw (e, weigh) (contradicted e)
  | inr e ↦ elim (Bool-cases (is_empty (evidence_ids sup))) [
    | inl s ↦ elim (Bool-cases (is_empty (evidence_ids chal))) [
      | inl c ↦ rw (e, s, c, weigh) (unclear e s c)
      | inr c ↦ rw (e, s, c, weigh) (only_challenged e s c)
    ]
    | inr s ↦ elim (Bool-cases (is_empty (evidence_ids chal))) [
      | inl c ↦ rw (e, s, c, weigh) (upheld e s)
      | inr c ↦ rw (e, s, c, weigh) (upheld e s)
    ]
  ]
]

Weighed-Drawn :
    {claim_id : String} {sup chal : List Argument} {r : ClaimResult}
    → Weighed claim_id sup chal r
    → Drawn sup chal r
Weighed-Drawn {sup} {chal} (contradicted e) = (
  (λ id m.
      let (k, b, _) = unique_from_sound id [] (evidence_ids sup ++ evidence_ids chal) m in
      let both = member-append id (evidence_ids sup) (evidence_ids chal) in
      (ground (arith, evidence_ids_sound sup id, evidence_ids_sound chal id), b)),
  unique_from-distinct [] (evidence_ids sup ++ evidence_ids chal),
  (λ v. absurd (cc)),
)
Weighed-Drawn {sup} {chal} (only_challenged e s c) = (
  (λ id m. let (k, b) = evidence_ids_sound chal id m in (ground arith, b)),
  evidence_ids-distinct chal,
  (λ v. absurd (cc)),
)
Weighed-Drawn {sup} {chal} (upheld e s) = (
  (λ id m. let (k, b) = evidence_ids_sound sup id m in (ground arith, b)),
  evidence_ids-distinct sup,
  (λ v. absurd (cc)),
)
Weighed-Drawn (unclear e s c) = ((λ id m. absurd (cc)), refl, (λ v. refl))

-- A verdict of JudgeClaim cites only ids of the given arguments, none of them blank and none twice,
-- and where it finds the evidence insufficient it cites nothing.
pub judge_claim-Drawn :
    (item : ClaimItem) (support challenge : List Argument)
    → Drawn support challenge (judge_claim item support challenge)
unfolding judge_claim
judge_claim-Drawn item support challenge =
    elim (Bool-cases (looks_like_outlook item.text item.claim_type)) [
      | inl e ↦ rw (e, judge_claim) ((λ id m. absurd (cc)), refl, (λ v. refl))
      | inr e ↦
          let (from, once, none_cited) = Weighed-Drawn (
            weigh-Weighed item.claim_id (relevant_args item support)
              (relevant_args item challenge)) in
          rw (e, judge_claim)
            (
              (λ id m.
                  let (k, b) = from id m in
                  (
                    ground (
                      arith,
                      relevant_args-ids item support id,
                      relevant_args-ids item challenge id,
                    ),
                    b,
                  )),
              once,
              none_cited,
            )
    ]

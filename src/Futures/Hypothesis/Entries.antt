-- ===== src/Futures/Hypothesis/Entries.antt =====
-- What the validation of conditions and of a recap accepts.
use zhigu.Base.{
  ◌≤◌, ◌≡◌, ◌↔◌, ◌⊎◌, refl, inl, inr, Bool, true, false, List, [], ◌∷◌, String, str_eq, eq_iff,
  eq_refl, length, count, All, ok, arith, Bool-cases, subst,
}
use zhigu.Futures.Hypothesis.{
  Condition, as_text, fits_alone, known, has_role, check_conditions, validate_hypothesis_conditions,
}

abbrev pub has_condition_id : String → Condition → Bool
has_condition_id id c = str_eq (as_text c.id) id

-- Between two and ten conditions, each complete by itself, no two of one id, and from one to five of
-- each role.
pub record Sound (cs : List Condition) : Type 0 where
  pub enough : 2 ≤ length cs
  pub not_too_many : length cs ≤ 10
  pub complete : All (λ c. fits_alone c ≡ true) cs
  pub distinct : (id : String) → count (has_condition_id id) cs ≤ 1
  pub validated : (1 ≤ count (has_role "validation") cs) × (count (has_role "validation") cs ≤ 5)
  pub invalidated :
      (1 ≤ count (has_role "invalidation") cs) × (count (has_role "invalidation") cs ≤ 5)

check_conditions_sound :
    (ids : List String) (cs : List Condition)
    → check_conditions ids cs ≡ true
    → All (λ c. fits_alone c ≡ true) cs
      × ((id : String)
          → (known id ids ≡ true → count (has_condition_id id) cs ≡ 0)
            × (count (has_condition_id id) cs ≤ 1))
unfolding count
check_conditions_sound ids [] h = (tt, λ id. ((λ _. refl), omega arith))
check_conditions_sound ids (c ∷ cs) h =
    let (fit, rest) = check_conditions_sound (as_text c.id ∷ ids) cs (ground arith) in
    (
      (ground arith, fit),
      λ id.
          let (fresh, one) = rest id in
          elim (Bool-cases (str_eq (as_text c.id) id)) [
            | inl e ↦
                let new =
                  subst (λ i. known i ids ≡ false) ((eq_iff (as_text c.id) id).0 e)
                    (ground arith) in
                let none_left = fresh (ground arith) in ((λ k. absurd (ground arith)), ground arith)
            | inr e ↦ ((λ k. let none_left = fresh (ground arith) in ground arith), ground arith)
          ],
    )

check_conditions_complete :
    (ids : List String) (cs : List Condition)
    → All (λ c. fits_alone c ≡ true) cs
    → ((id : String)
        → (known id ids ≡ true → count (has_condition_id id) cs ≡ 0)
          × (count (has_condition_id id) cs ≤ 1))
    → check_conditions ids cs ≡ true
unfolding count
check_conditions_complete ids [] fit once = refl
check_conditions_complete ids (c ∷ cs) (f, fit) once =
    let here = eq_refl (as_text c.id) in
    let (fresh, one) = once (as_text c.id) in
    let rest =
      check_conditions_complete (as_text c.id ∷ ids) cs fit
        (λ id. still id (Bool-cases (str_eq (as_text c.id) id))) in
    elim (Bool-cases (known (as_text c.id) ids)) [
      | inl k ↦ let none_left = fresh k in absurd (ground arith)
      | inr k ↦ ground arith
    ]
  where
    still :
        (id : String)
        → (str_eq (as_text c.id) id ≡ true) ⊎ (str_eq (as_text c.id) id ≡ false)
        → (known id (as_text c.id ∷ ids) ≡ true → count (has_condition_id id) cs ≡ 0)
          × (count (has_condition_id id) cs ≤ 1)
    still id (inl e) = let (fresh, one) = once id in ((λ _. ground arith), ground arith)
    still id (inr e) =
        let (fresh, one) = once id in
        ((λ k. let none_left = fresh (ground arith) in ground arith), ground arith)

-- The conditions of a hypothesis are accepted exactly when they are sound.
pub validate_hypothesis_conditions-Sound :
    (cs : List Condition) → (validate_hypothesis_conditions cs ≡ ok tt) ↔ Sound cs
unfolding validate_hypothesis_conditions
validate_hypothesis_conditions-Sound cs = (
  (λ h.
      let (fit, once) = check_conditions_sound [] cs (ground arith) in
      record {
        enough = ground arith;
        not_too_many = ground arith;
        complete = fit;
        distinct = λ id. (once id).1;
        validated = (ground arith, ground arith);
        invalidated = (ground arith, ground arith);
      }),
  (λ s.
      let passed =
        check_conditions_complete [] cs s.complete (λ id. ((λ k. absurd (cc)), s.distinct id)) in
      ground (arith, s.enough, s.not_too_many, s.validated, s.invalidated)),
)

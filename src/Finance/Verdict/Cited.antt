-- ===== src/Finance/Verdict/Cited.antt =====
-- What a verdict of JudgeClaim cites.
use zhigu.Base.{
  ◌≡◌, inl, inr, refl, sym, Bool, true, false, not, ◌&&◌, ◌||◌, List, [], ◌∷◌, ◌++◌, String, str_eq,
  eq_iff, eq_refl, arith, Bool-cases, subst,
}
use zhigu.Finance.Verdict.{member, unique_from}

pub member-append :
    (s : String) (xs ys : List String) → member s (xs ++ ys) ≡ (member s xs || member s ys)
member-append s [] ys = refl
member-append s (x ∷ xs) ys = ground (arith, member-append s xs ys)

-- The ids that are kept are new, not blank, and stand in the list.
pub unique_from_sound :
    (s : String) (seen xs : List String)
    → member s (unique_from seen xs) ≡ true
    → (member s xs ≡ true) × (str_eq s "" ≡ false) × (member s seen ≡ false)
unique_from_sound s seen [] h = absurd (cc)
unique_from_sound s seen (x ∷ xs) h = elim (Bool-cases (str_eq x "" || member x seen)) [
  | inl e ↦
      let (m, b, n) = unique_from_sound s seen xs (rw (e, unique_from) at h) in
      (ground (arith, m), b, n)
  | inr e ↦ elim (Bool-cases (str_eq x s)) [
    | inl k ↦
        let same = (eq_iff x s).0 k in
        (
          ground (arith, k),
          subst (λ y. str_eq y "" ≡ false) same (ground (arith, e)),
          subst (λ y. member y seen ≡ false) same (ground (arith, e)),
        )
    | inr k ↦
        let kept = rw (e, unique_from) at h in
        let (m, b, n) = unique_from_sound s (x ∷ seen) xs (ground (arith, kept, k)) in
        (ground (arith, m), b, ground (arith, n))
  ]
]

pub unique_from_complete :
    (s : String) (seen xs : List String)
    → member s xs ≡ true
    → str_eq s "" ≡ false
    → member s seen ≡ false
    → member s (unique_from seen xs) ≡ true
unique_from_complete s seen [] m b n = absurd (cc)
unique_from_complete s seen (x ∷ xs) m b n = elim (Bool-cases (str_eq x s)) [
  | inl k ↦
      let same = (eq_iff x s).0 k in
      let fresh =
        subst (λ y. (str_eq y "" || member y seen) ≡ false) (sym same) (ground (arith, b, n)) in
      rw (fresh, unique_from) (ground (arith, k))
  | inr k ↦ elim (Bool-cases (str_eq x "" || member x seen)) [
    | inl e ↦ rw (e, unique_from) (unique_from_complete s seen xs (ground (arith, m, k)) b n)
    | inr e ↦
        let more =
          unique_from_complete s (x ∷ seen) xs (ground (arith, m, k)) b (ground (arith, n, k)) in
        rw (e, unique_from) (ground (arith, more))
  ]
]

abbrev pub distinct : List String → Bool
distinct [] = true
distinct (x ∷ xs) = not (member x xs) && distinct xs

pub unique_from-distinct : (seen xs : List String) → distinct (unique_from seen xs) ≡ true
unique_from-distinct seen [] = refl
unique_from-distinct seen (x ∷ xs) = elim (Bool-cases (str_eq x "" || member x seen)) [
  | inl e ↦ rw (e, unique_from) (unique_from-distinct seen xs)
  | inr e ↦ elim (Bool-cases (member x (unique_from (x ∷ seen) xs))) [
    | inl k ↦
        let (_, _, n) = unique_from_sound x (x ∷ seen) xs k in
        let here = eq_refl x in absurd (ground (arith, n, here))
    | inr k ↦
        let more = unique_from-distinct (x ∷ seen) xs in
        rw (e, unique_from) (ground (arith, k, more))
  ]
]

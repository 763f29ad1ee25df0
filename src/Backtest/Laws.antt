-- ===== src/Backtest/Laws.antt =====
-- What the documentation of decimals promises of sums and order: arithmetic is exact but for
-- division. A decimal is its value here, so that two that are Equal are one.
use zhigu.Base.{ℕ, ◌≡◌, sym, ap, ◌∙◌, subst, inl, inr, true, false, Bool-cases, Decimals}

pub record Lawful (d : Decimals) : Type 0 where
  pub add_assoc : (a b c : d.Decimal) → d.add (d.add a b) c ≡ d.add a (d.add b c)
  pub add_comm : (a b : d.Decimal) → d.add a b ≡ d.add b a
  pub add_zero : (a : d.Decimal) → d.add a d.zero ≡ a
  pub sub-add : (a b : d.Decimal) → d.add (d.sub a b) b ≡ a
  pub lt_irrefl : (a : d.Decimal) → d.lt a a ≡ false
  pub lt_trans : (a b c : d.Decimal) → d.lt a b ≡ true → d.lt b c ≡ true → d.lt a c ≡ true
  pub lt_total : (a b : d.Decimal) → d.lt a b ≡ false → d.lt b a ≡ false → a ≡ b
  pub lt-add : (a b c : d.Decimal) → d.lt (d.add a c) (d.add b c) ≡ d.lt a b
  pub eq-true : (a b : d.Decimal) → d.eq a b ≡ true → a ≡ b
  pub mul_least :
      (a b : d.Decimal)
      → d.lt a d.zero ≡ false
      → d.lt d.zero b ≡ true
      → d.lt (d.mul a b) d.zero ≡ false
  pub of_nat_least : (n : ℕ) → d.lt (d.of_nat n) d.zero ≡ false

module _ (d : Decimals) (law : Lawful d) where
  -- At most.
  abbrev pub Le : d.Decimal → d.Decimal → Type 0
  Le a b = d.lt b a ≡ false

  pub Le-trans : (a b c : d.Decimal) → Le a b → Le b c → Le a c
  Le-trans a b c h k = elim (Bool-cases (d.lt c a)) [
    | inr e ↦ e
    | inl e ↦ elim (Bool-cases (d.lt a b)) [
      | inl lt ↦ absurd (cc (law.lt_trans c a b e lt))
      | inr ge ↦
          let same = law.lt_total a b ge h in absurd (cc (subst (λ x. d.lt c x ≡ true) same e))
    ]
  ]

  pub Le_of_lt : (a b : d.Decimal) → d.lt a b ≡ true → Le a b
  Le_of_lt a b h = elim (Bool-cases (d.lt b a)) [
    | inr e ↦ e
    | inl e ↦ absurd (cc (law.lt_trans a b a h e, law.lt_irrefl a))
  ]

  pub Le_refl : (a : d.Decimal) → Le a a
  Le_refl a = law.lt_irrefl a

  pub zero_add : (a : d.Decimal) → d.add d.zero a ≡ a
  zero_add a = law.add_comm d.zero a ∙ law.add_zero a

  pub swap : (a b c : d.Decimal) → d.add (d.add a b) c ≡ d.add (d.add a c) b
  swap a b c = law.add_assoc a b c ∙ ap (d.add a) (law.add_comm b c) ∙ sym (law.add_assoc a c b)

  -- a - c < b exactly if a < b + c, and a < b - c exactly if a + c < b.
  pub lt-sub : (a b c : d.Decimal) → d.lt (d.sub a c) b ≡ d.lt a (d.add b c)
  lt-sub a b c = sym (law.lt-add (d.sub a c) b c) ∙ ap (λ x. d.lt x (d.add b c)) (law.sub-add a c)

  pub lt-sub_right : (a b c : d.Decimal) → d.lt a (d.sub b c) ≡ d.lt (d.add a c) b
  lt-sub_right a b c =
      sym (law.lt-add a (d.sub b c) c) ∙ ap (λ x. d.lt (d.add a c) x) (law.sub-add b c)

  pub Le-add : (a b c : d.Decimal) → Le a b → Le (d.add a c) (d.add b c)
  Le-add a b c h = law.lt-add b a c ∙ h

  -- What is at least 0 adds.
  pub Le-add_left : (a b : d.Decimal) → Le d.zero a → Le b (d.add a b)
  Le-add_left a b h = subst (λ x. Le x (d.add a b)) (zero_add b) (Le-add d.zero a b h)

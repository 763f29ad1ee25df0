-- ===== src/Base/Tables.antt =====
-- A database table as the list of its rows: `UPDATE … WHERE`, `count(*)` and `RowsAffected`.
use Prim.Native.Nat.{ℕ, ◌+◌, ◌≤◌}
use mathlib.Core.Path.{◌≡◌, refl}
use mathlib.Core.Logic.{inl, inr}
use mathlib.Core.Bool.{Bool, true, false}
use mathlib.Core.List.{List, [], ◌∷◌, ◌++◌}
use mathlib.Core.Option.{Option, none, some}
use mathlib.Core.Path.{subst}
use native.Mathlib.Omega.{arith}
use zhigu.Base.Tests.{if◌then◌else◌, Bool-cases}
use zhigu.Base.Lists.{All, Related}

module _ {ℓ} {A : Type ℓ} where
  -- `UPDATE … SET … WHERE …`.
  unfoldable pub update : (A → Bool) → (A → A) → List A → List A
  update test f [] = []
  update test f (r ∷ rs) = (if test r then f r else r) ∷ update test f rs

  -- `SELECT count(*) … WHERE …`, and the rows that an update with that condition affects.
  unfoldable pub count : (A → Bool) → List A → ℕ
  count test [] = 0
  count test (r ∷ rs) = (if test r then 1 else 0) + count test rs

  -- `First` with a condition that at most one row meets.
  abbrev pub first : (A → Bool) → List A → Option A
  first test [] = none
  first test (r ∷ rs) = if test r then some r else first test rs

  pub first-test : (test : A → Bool) (rs : List A) {r : A} → first test rs ≡ some r → test r ≡ true
  first-test test [] h = cc
  first-test test (x ∷ rs) h = elim (Bool-cases (test x)) [
    | inl e ↦ ground (arith)
    | inr e ↦ first-test test rs (rw (← h, e))
  ]

  pub count-zero_All :
      (test : A → Bool) (P : A → Type 0) (rs : List A)
      → count test rs ≡ 0
      → All (λ r. test r ≡ true → P r) rs
  unfolding count
  count-zero_All test P [] h = tt
  count-zero_All test P (r ∷ rs) h =
      (λ e. absurd (ground arith), count-zero_All test P rs (ground arith))

  -- A condition that one row meets is met by no row but the one that is found.
  pub first_only :
      (test : A → Bool) (P : A → Type 0) (rs : List A) {x : A}
      → count test rs ≡ 1
      → first test rs ≡ some x
      → P x
      → All (λ r. test r ≡ true → P r) rs
  unfolding count
  first_only test P [] one found p = tt
  first_only test P (r ∷ rs) {x} one found p = elim (Bool-cases (test r)) [
    | inl e ↦ (λ _. subst P (ground arith) p, count-zero_All test P rs (ground arith))
    | inr e ↦ (λ y. absurd (cc), first_only test P rs (ground arith) (ground arith) p)
  ]

  pub All-update {κ} :
      (P : A → Type κ) (test : A → Bool) (f : A → A) (rs : List A)
      → ((r : A) → test r ≡ true → P r → P (f r))
      → All P rs
      → All P (update test f rs)
  unfolding update
  All-update P test f [] keep h = tt
  All-update P test f (r ∷ rs) keep h = elim (Bool-cases (test r)) [
    | inl e ↦ rw e (keep r e h.0, All-update P test f rs keep h.1)
    | inr e ↦ rw e (h.0, All-update P test f rs keep h.1)
  ]

  pub Related-update :
      (R : A → A → Type 0) (test : A → Bool) (f : A → A) (rs : List A)
      → ((r : A) → R r r)
      → ((r : A) → test r ≡ true → R r (f r))
      → Related R rs (update test f rs)
  unfolding update
  Related-update R test f [] same step = tt
  Related-update R test f (r ∷ rs) same step = elim (Bool-cases (test r)) [
    | inl e ↦ rw e (step r e, Related-update R test f rs same step)
    | inr e ↦ rw e (same r, Related-update R test f rs same step)
  ]

  -- An update that never makes `p` true leaves no more rows with `p`.
  pub count-update-le :
      (p test : A → Bool) (f : A → A) (rs : List A)
      → ((r : A) → test r ≡ true → p (f r) ≡ true → p r ≡ true)
      → count p (update test f rs) ≤ count p rs
  unfolding update count
  count-update-le p test f [] keep = omega arith
  count-update-le p test f (r ∷ rs) keep = ground (arith, keep r, count-update-le p test f rs keep)

  -- Any update adds at most one row with `p` for each row that it affects.
  pub count-update_affected :
      (p test : A → Bool) (f : A → A) (rs : List A)
      → count p (update test f rs) ≤ count p rs + count test rs
  unfolding update count
  count-update_affected p test f [] = omega arith
  count-update_affected p test f (r ∷ rs) = ground (arith, count-update_affected p test f rs)

  pub count-append : (p : A → Bool) (rs qs : List A) → count p (rs ++ qs) ≡ count p rs + count p qs
  unfolding count
  count-append p [] qs = omega arith
  count-append p (r ∷ rs) qs = omega (arith, count-append p rs qs)

  pub count_none : (p : A → Bool) (rs : List A) → All (λ r. p r ≡ false) rs → count p rs ≡ 0
  unfolding count
  count_none p [] h = refl
  count_none p (r ∷ rs) h = ground (arith, h.0, count_none p rs h.1)

  -- A condition that is narrower affects no more rows.
  pub count_mono :
      (p q : A → Bool) (rs : List A) → ((r : A) → p r ≡ true → q r ≡ true) → count p rs ≤ count q rs
  unfolding count
  count_mono p q [] h = omega arith
  count_mono p q (r ∷ rs) h = ground (arith, h r, count_mono p q rs h)

  -- The same, with a fact about each row that the guard established.
  pub All-update_known {κ} :
      (Q : A → Type 0) (P : A → Type κ) (test : A → Bool) (f : A → A) (rs : List A)
      → ((r : A) → test r ≡ true → Q r → P r → P (f r))
      → All Q rs
      → All P rs
      → All P (update test f rs)
  unfolding update
  All-update_known Q P test f [] keep q h = tt
  All-update_known Q P test f (r ∷ rs) keep q h = elim (Bool-cases (test r)) [
    | inl e ↦ rw e (keep r e q.0 h.0, All-update_known Q P test f rs keep q.1 h.1)
    | inr e ↦ rw e (h.0, All-update_known Q P test f rs keep q.1 h.1)
  ]

  pub Related-update_known :
      (Q : A → Type 0) (R : A → A → Type 0) (test : A → Bool) (f : A → A) (rs : List A)
      → ((r : A) → R r r)
      → ((r : A) → test r ≡ true → Q r → R r (f r))
      → All Q rs
      → Related R rs (update test f rs)
  unfolding update
  Related-update_known Q R test f [] same step q = tt
  Related-update_known Q R test f (r ∷ rs) same step q = elim (Bool-cases (test r)) [
    | inl e ↦ rw e (step r e q.0, Related-update_known Q R test f rs same step q.1)
    | inr e ↦ rw e (same r, Related-update_known Q R test f rs same step q.1)
  ]

  pub count-update-le_known :
      (Q : A → Type 0) (p test : A → Bool) (f : A → A) (rs : List A)
      → ((r : A) → test r ≡ true → Q r → p (f r) ≡ true → p r ≡ true)
      → All Q rs
      → count p (update test f rs) ≤ count p rs
  unfolding update count
  count-update-le_known Q p test f [] keep q = omega arith
  count-update-le_known Q p test f (r ∷ rs) keep q =
      ground
        (arith, λ (e : test r ≡ true). keep r e q.0, count-update-le_known Q p test f rs keep q.1)

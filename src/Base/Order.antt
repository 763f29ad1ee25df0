-- ===== src/Base/Order.antt =====
-- `ORDER BY key, tie LIMIT 1` under a condition.
use native.Mathlib.Nat.{le_trans}
use Prim.Native.Nat.{ℕ, ◌≤◌}
use mathlib.Core.Path.{◌≡◌, sym, subst, ◌∙◌}
use mathlib.Core.Logic.{◌⊎◌, inl, inr}
use mathlib.Core.Bool.{Bool, true, false, ◌&&◌, ◌||◌}
use mathlib.Core.List.{List, [], ◌∷◌}
use mathlib.Core.Option.{Option, none, some}
use native.Mathlib.Omega.{arith}
use zhigu.Base.Tests.{if◌then◌else◌, ltb, ◌==◌, Bool-cases, Option-cases}
use zhigu.Base.Lists.{All, All-map, Elem}

module _ {A : Type 0} (key : A → ℕ) (tie : A → A → Bool) where
  abbrev precedes : A → A → Bool
  precedes r t = ltb (key r) (key t) || key r == key t && tie r t

  abbrev sooner : A → Option A → A
  sooner r none = r
  sooner r (some t) = if precedes t r then t else r

  unfoldable pub least : (A → Bool) → List A → Option A
  least test [] = none
  least test (r ∷ rs) = let best = least test rs in if test r then some (sooner r best) else best

  sooner_cases :
      (r t : A)
      → ((sooner r (some t) ≡ r) × (key r ≤ key t)) ⊎ ((sooner r (some t) ≡ t) × (key t ≤ key r))
  sooner_cases r t = ground arith

  pub least-none :
      (test : A → Bool) (rs : List A) → least test rs ≡ none → All (λ r. test r ≡ false) rs
  unfolding least
  least-none test [] h = tt
  least-none test (r ∷ rs) h = (ground arith, least-none test rs (ground arith))

  least_alone :
      (test : A → Bool) (r : A) (rs : List A) {x : A}
      → test r ≡ true
      → least test rs ≡ none
      → least test (r ∷ rs) ≡ some x
      → r ≡ x
  unfolding least
  least_alone test r rs e n h = ground arith

  least_two :
      (test : A → Bool) (r : A) (rs : List A) (best : A) {x : A}
      → test r ≡ true
      → least test rs ≡ some best
      → least test (r ∷ rs) ≡ some x
      → sooner r (some best) ≡ x
  unfolding least
  least_two test r rs best e b h = cc (rw (e, b, least) at h)

  least_skip :
      (test : A → Bool) (r : A) (rs : List A) {x : A}
      → test r ≡ false
      → least test (r ∷ rs) ≡ some x
      → least test rs ≡ some x
  unfolding least
  least_skip test r rs e h = ground arith

  older_still :
      (test : A → Bool) (a b : ℕ) (rs : List A)
      → a ≤ b
      → All (λ r. test r ≡ true → b ≤ key r) rs
      → All (λ r. test r ≡ true → a ≤ key r) rs
  older_still test a b rs le h =
      All-map (λ r. test r ≡ true → b ≤ key r) (λ r. test r ≡ true → a ≤ key r) rs
        (λ r k t. le_trans le (k t)) h

  -- The x that is taken meets the condition, and none that does was created before it.
  pub least_lem :
      (test : A → Bool) (rs : List A) {x : A}
      → least test rs ≡ some x
      → Elem x rs × (test x ≡ true) × All (λ r. test r ≡ true → key x ≤ key r) rs
  unfolding least
  least_lem test [] h = cc
  least_lem test (r ∷ rs) {x} h = elim (Bool-cases (test r)) [
    | inr e ↦
        let (m, t, older) = least_lem test rs (least_skip test r rs e h) in
        (inr m, t, ((λ k. cc), older))
    | inl e ↦ elim (Option-cases (least test rs)) [
      | inl n ↦
          let p : r ≡ x = least_alone test r rs e n h in
          (
            inl p,
            subst (λ y. test y ≡ true) p e,
            (
              (λ k. ground arith),
              All-map (λ y. test y ≡ false) (λ y. test y ≡ true → key x ≤ key y) rs (λ y f k. cc)
                  (least-none test rs n),
            ),
          )
      | inr (best, b) ↦
          let p : sooner r (some best) ≡ x = least_two test r rs best e b h in
          let (m, t, older) = least_lem test rs b in
          elim (sooner_cases r best) [
            | inl (q, le) ↦
                let w : r ≡ x = sym q ∙ p in
                (
                  inl w,
                  subst (λ y. test y ≡ true) w e,
                  (
                    (λ k. ground arith),
                    older_still test (key x) (key best) rs (ground arith) older,
                  ),
                )
            | inr (q, le) ↦
                let w : best ≡ x = sym q ∙ p in
                (
                  inr (subst (λ y. Elem y rs) w m),
                  subst (λ y. test y ≡ true) w t,
                  (
                    (λ k. ground arith),
                    older_still test (key x) (key best) rs (ground arith) older,
                  ),
                )
          ]
    ]
  ]

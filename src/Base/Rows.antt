-- ===== src/Base/Rows.antt =====
-- Conditions, updates and lookups of a table, at a row that stands in it.
use Prim.Native.Nat.{◌+◌, ◌≤◌, ◌<◌}
use mathlib.Core.Path.{◌≡◌, refl, subst, sym, ◌∙◌}
use mathlib.Core.Logic.{inl, inr}
use mathlib.Core.Bool.{Bool, true, false, false≢true}
use mathlib.Core.List.{List, [], ◌∷◌}
use mathlib.Core.Option.{none, some}
use native.Mathlib.Omega.{arith}
use zhigu.Base.Tests.{if◌then◌else◌, Bool-cases}
use zhigu.Base.Lists.{All, Elem}
use zhigu.Base.Tables.{update, count, first, count-zero_All, count-update-le}

-- A row that meets a condition is counted.
pub count-Elem :
    {A : Type 0} (test : A → Bool) (a : A) (rs : List A)
    → Elem a rs
    → test a ≡ true
    → 0 < count test rs
unfolding count
count-Elem test a [] m h = absurd m
count-Elem test a (r ∷ rs) (inl e) h = rw (e, h) (omega arith)
count-Elem test a (r ∷ rs) (inr m) h = omega (arith, count-Elem test a rs m h)

-- What every row satisfies after an update, whatever held before.
pub update-All {ℓ κ} :
    {A : Type ℓ} (P : A → Type κ) (test : A → Bool) (f : A → A) (rs : List A)
    → ((r : A) → test r ≡ true → P (f r))
    → ((r : A) → test r ≡ false → P r)
    → All P (update test f rs)
unfolding update
update-All P test f [] hit miss = tt
update-All P test f (r ∷ rs) hit miss = elim (Bool-cases (test r)) [
  | inl e ↦ rw e (hit r e, update-All P test f rs hit miss)
  | inr e ↦ rw e (miss r e, update-All P test f rs hit miss)
]

-- An update that hits a row with `p`, and leaves no row that it hits with `p`, leaves fewer.
pub count-update-lt :
    {A : Type 0} (p test : A → Bool) (f : A → A) (a : A) (rs : List A)
    → Elem a rs
    → test a ≡ true
    → p a ≡ true
    → ((r : A) → p (f r) ≡ false)
    → count p (update test f rs) < count p rs
unfolding count update
count-update-lt p test f a [] m t h off = absurd m
count-update-lt p test f a (r ∷ rs) (inl e) t h off =
    let le = count-update-le p test f rs (λ q _ k. absurd (false≢true (sym (off q) ∙ k))) in
    rw (e, t, h, off a) (omega (arith, le))
count-update-lt p test f a (r ∷ rs) (inr m) t h off =
    ground (arith, off r, count-update-lt p test f a rs m t h off)

pub first-some :
    {A : Type 0} (test : A → Bool) (a : A) (rs : List A)
    → Elem a rs
    → test a ≡ true
    → (b : A) × (first test rs ≡ some b)
first-some test a [] m t = absurd m
first-some test a (r ∷ rs) m t = elim (Bool-cases (test r)) [
  | inl e ↦ (r, rw e)
  | inr e ↦ elim m [
    | inl q ↦ absurd (cc)
    | inr n ↦ let (b, h) = first-some test a rs n t in (b, rw (e, first) h)
  ]
]

-- An update that hits no row changes nothing.
pub update_none {ℓ} :
    {A : Type ℓ} (test : A → Bool) (f : A → A) (rs : List A)
    → count test rs ≡ 0
    → update test f rs ≡ rs
unfolding count update
update_none test f [] h = refl
update_none test f (r ∷ rs) h = ground (arith, update_none test f rs)

-- What holds of a row holds of all the rows with its key.
pub only_Elem :
    {A : Type 0} (test : A → Bool) (P : A → Type 0) (a : A) (rs : List A)
    → Elem a rs
    → test a ≡ true
    → count test rs ≤ 1
    → P a
    → All (λ r. test r ≡ true → P r) rs
unfolding count
only_Elem test P a [] m t one p = absurd m
only_Elem test P a (r ∷ rs) (inl e) t one p =
    (λ _. subst P (sym e) p, count-zero_All test P rs (ground arith))
only_Elem test P a (r ∷ rs) (inr m) t one p =
    let some_row = count-Elem test a rs m t in
    (λ h. absurd (ground arith), only_Elem test P a rs m t (ground arith) p)

-- An update of one row adds or removes that row from those with `p`.
pub count-update_only :
    {A : Type 0} (p test : A → Bool) (f : A → A) (a : A) (rs : List A)
    → Elem a rs
    → test a ≡ true
    → count test rs ≤ 1
    → count p (update test f rs) + (if p a then 1 else 0) ≡ count p rs + (if p (f a) then 1 else 0)
unfolding count update
count-update_only p test f a [] m t one = absurd m
count-update_only p test f a (r ∷ rs) (inl e) t one =
    let same = update_none test f rs (ground arith) in rw (e, t, same) (omega arith)
count-update_only p test f a (r ∷ rs) (inr m) t one =
    let some_row = count-Elem test a rs m t in ground (arith, count-update_only p test f a rs m t)

pub first-none {ℓ} :
    {A : Type ℓ} (test : A → Bool) (rs : List A) → first test rs ≡ none → count test rs ≡ 0
unfolding count
first-none test [] h = refl
first-none test (r ∷ rs) h = ground (arith, first-none test rs)

pub first-count {ℓ} :
    {A : Type ℓ} (test : A → Bool) (rs : List A) {a : A}
    → first test rs ≡ some a
    → 0 < count test rs
unfolding count
first-count test [] h = cc
first-count test (r ∷ rs) h = elim (Bool-cases (test r)) [
  | inl e ↦ ground arith
  | inr e ↦ let more = first-count test rs (rw (e, first) at h) in ground arith
]

-- A row that is counted is found.
pub count-first {ℓ} :
    {A : Type ℓ} (test : A → Bool) (rs : List A)
    → 0 < count test rs
    → (a : A) × (first test rs ≡ some a)
unfolding count
count-first test [] h = absurd (omega (arith, h))
count-first test (r ∷ rs) h = elim (Bool-cases (test r)) [
  | inl e ↦ (r, rw e)
  | inr e ↦ let (a, found) = count-first test rs (ground arith) in (a, rw (e, first) found)
]

-- What every row with a condition satisfies, the one that is found does.
pub All-first {ℓ} :
    {A : Type ℓ} (test : A → Bool) (P : A → Type 0) (rs : List A) {a : A}
    → All (λ r. test r ≡ true → P r) rs
    → first test rs ≡ some a
    → P a
All-first test P [] h found = absurd (cc)
All-first test P (r ∷ rs) h found = elim (Bool-cases (test r)) [
  | inl e ↦ subst P (ground arith) (h.0 e)
  | inr e ↦ All-first test P rs h.1 (rw (e, first) at found)
]

-- An update that leaves a condition as it is leaves a row with it to be found.
pub first-update {ℓ} :
    {A : Type ℓ} (test hit : A → Bool) (f : A → A) (rs : List A) {a : A}
    → ((r : A) → test (f r) ≡ test r)
    → first test rs ≡ some a
    → (b : A) × (first test (update hit f rs) ≡ some b)
unfolding update
first-update test hit f [] same found = absurd (cc)
first-update test hit f (r ∷ rs) same found = elim (Bool-cases (test r)) [
  | inl e ↦ (if hit r then f r else r, ground (arith, same r))
  | inr e ↦
      let (b, h) = first-update test hit f rs same (rw (e, first) at found) in
      (b, ground (arith, same r))
]

pub first-Elem :
    {A : Type 0} (test : A → Bool) (rs : List A) {a : A} → first test rs ≡ some a → Elem a rs
first-Elem test [] found = absurd (cc)
first-Elem test (r ∷ rs) found = elim (Bool-cases (test r)) [
  | inl e ↦ inl (ground arith)
  | inr e ↦ inr (first-Elem test rs (rw (e, first) at found))
]

-- Two updates, one after the other, row by row.
abbrev pub hit {ℓ} : {A : Type ℓ} → (A → Bool) → (A → A) → A → A
hit test f r = if test r then f r else r

pub All-twice {ℓ} :
    {A : Type ℓ} (P Q : A → Type 0) (test again : A → Bool) (f g : A → A) (rs : List A)
    → ((r : A) → P r → Q (hit again g (hit test f r)))
    → All P rs
    → All Q (update again g (update test f rs))
unfolding update
All-twice P Q test again f g [] step h = tt
All-twice P Q test again f g (r ∷ rs) step h =
    (step r h.0, All-twice P Q test again f g rs step h.1)

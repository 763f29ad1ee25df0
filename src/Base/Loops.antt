-- ===== src/Base/Loops.antt =====
-- Counted loops over arrays, and what their outputs have in common.
use Prim.Native.Nat.{ℕ, zero, suc, ◌+◌, ◌≤◌, ◌<◌}
use mathlib.Core.Path.{◌≡◌, refl, ap, ◌∙◌, subst}
use mathlib.Core.List.{List, [], ◌∷◌, ◌++◌, map, map-append}
use native.Mathlib.Nat.{zero-add, suc-add}
use native.Mathlib.Omega.{arith}
use zhigu.Base.Lists.{length}

module _ {ℓ} {A : Type ℓ} where
  -- `xs[i]`, which the code reads within the bounds only.
  abbrev pub at : A → List A → ℕ → A
  at other [] i = other
  at other (x ∷ xs) zero = x
  at other (x ∷ xs) (suc i) = at other xs i

  abbrev pub replicate : ℕ → A → List A
  replicate zero a = []
  replicate (suc k) a = a ∷ replicate k a

  pub length-replicate : (k : ℕ) (a : A) → length (replicate k a) ≡ k
  length-replicate zero a = refl
  length-replicate (suc k) a = ap suc (length-replicate k a)

  -- `for j := from; j < from+k; j++ { s = body(j, s) }`.
  unfoldable pub fold_range : (ℕ → A → A) → ℕ → ℕ → A → A
  fold_range body zero from s = s
  fold_range body (suc k) from s = fold_range body k (suc from) (body from s)

  pub at-append : (o : A) (xs ys : List A) (i : ℕ) → i < length xs → at o (xs ++ ys) i ≡ at o xs i
  at-append o [] ys i h = absurd (omega arith)
  at-append o (x ∷ xs) ys zero h = refl
  at-append o (x ∷ xs) ys (suc i) h = at-append o xs ys i (omega arith)

  pub fold_range-cong :
      (f g : ℕ → A → A) (k from m : ℕ) (s : A)
      → ((j : ℕ) (t : A) → j < m → f j t ≡ g j t)
      → from + k ≤ m
      → fold_range f k from s ≡ fold_range g k from s
  unfolding fold_range
  fold_range-cong f g zero from m s same h = refl
  fold_range-cong f g (suc k) from m s same h =
      ap (λ t. fold_range f k (suc from) t) (same from s (omega arith))
      ∙ fold_range-cong f g k (suc from) m (g from s) same (omega arith)

  -- The longer list goes on where the shorter one ends.
  abbrev pub Extends : List A → List A → Type ℓ
  Extends xs ys = (zs : List A) × (ys ≡ xs ++ zs)

  pub at-Extends :
      (o : A) (xs ys : List A) (i : ℕ) → Extends xs ys → i < length xs → at o ys i ≡ at o xs i
  at-Extends o xs ys i (zs, e) h = rw e (at-append o xs zs i h)

-- The predicate holds of every element at its index.
abbrev pub AllFrom {ℓ κ} : {A : Type ℓ} → (ℕ → A → Type κ) → ℕ → List A → Type κ
AllFrom P i [] = Unit
AllFrom P i (x ∷ xs) = P i x × AllFrom P (suc i) xs

pub AllFrom-map {ℓ κ} :
    {A : Type ℓ} {B : Type κ} (f : A → B) (P : ℕ → A → Type 0) (Q : ℕ → B → Type 0) (xs : List A)
    (i : ℕ)
    → ((j : ℕ) (a : A) → P j a → Q j (f a))
    → AllFrom P i xs
    → AllFrom Q i (map f xs)
AllFrom-map f P Q [] i imp h = tt
AllFrom-map f P Q (x ∷ xs) i imp h = (imp i x h.0, AllFrom-map f P Q xs (suc i) imp h.1)

pub AllFrom-at {ℓ} :
    {A : Type ℓ} (P : ℕ → A → Type 0) (o : A) (xs : List A) (from i : ℕ)
    → AllFrom P from xs
    → i < length xs
    → P (from + i) (at o xs i)
AllFrom-at P o [] from i h lt = absurd (omega arith)
AllFrom-at P o (x ∷ xs) from zero h lt =
    let e : from ≡ from + 0 = omega arith in subst (λ n. P n x) e h.0
AllFrom-at P o (x ∷ xs) from (suc i) h lt =
    let e : suc from + i ≡ from + suc i = omega arith in
    subst (λ n. P n (at o xs i)) e (AllFrom-at P o xs (suc from) i h.1 (omega arith))

pub replicate-AllFrom {ℓ} :
    {A : Type ℓ} (P : ℕ → A → Type 0) (a : A) (k i m : ℕ)
    → ((j : ℕ) → j < m → P j a)
    → i + k ≤ m
    → AllFrom P i (replicate k a)
replicate-AllFrom P a zero i m h le = tt
replicate-AllFrom P a (suc k) i m h le =
    (h i (omega arith), replicate-AllFrom P a k (suc i) m h (omega arith))

pub Extends-map {ℓ κ} :
    {A : Type ℓ} {B : Type κ} (f : A → B) (xs ys : List A)
    → Extends xs ys
    → Extends (map f xs) (map f ys)
Extends-map f xs ys (zs, e) = (map f zs, ap (map f) e ∙ map-append f xs zs)

-- `out := make([]…, n); for i := 0; i < n; i++ { out[i] = … }` with variables that the rounds share.
module _ {ℓ κ} {S : Type ℓ} {A : Type κ} where
  unfoldable pub scan : (ℕ → S → S × A) → ℕ → ℕ → S → List A
  scan step zero i s = []
  scan step (suc k) i s = (step i s).1 ∷ scan step k (suc i) (step i s).0

  unfoldable pub state_after : (ℕ → S → S × A) → ℕ → ℕ → S → S
  state_after step zero i s = s
  state_after step (suc k) i s = state_after step k (suc i) (step i s).0

  pub length-scan : (step : ℕ → S → S × A) (k i : ℕ) (s : S) → length (scan step k i s) ≡ k
  unfolding scan
  length-scan step zero i s = refl
  length-scan step (suc k) i s = ap suc (length-scan step k (suc i) (step i s).0)

  pub scan-add :
      (step : ℕ → S → S × A) (k m i : ℕ) (s : S) → Extends (scan step k i s) (scan step (k + m) i s)
  unfolding scan
  scan-add step zero m i s = (scan step m i s, rw (zero-add m))
  scan-add step (suc k) m i s =
      let (zs, e) = scan-add step k m (suc i) (step i s).0 in
      (zs, rw (suc-add k m) (ap (λ t. (step i s).1 ∷ t) e))

  pub scan-cong :
      (f g : ℕ → S → S × A) (k i m : ℕ) (s : S)
      → ((j : ℕ) (t : S) → j < m → f j t ≡ g j t)
      → i + k ≤ m
      → scan f k i s ≡ scan g k i s
  unfolding scan
  scan-cong f g zero i m s same h = refl
  scan-cong f g (suc k) i m s same h =
      ap (λ p. p.1 ∷ scan f k (suc i) p.0) (same i s (omega arith))
      ∙ ap (λ t. (g i s).1 ∷ t) (scan-cong f g k (suc i) m (g i s).0 same (omega arith))

  -- A loop over more rounds that does the same in the first rounds.
  pub scan-Extends :
      (f g : ℕ → S → S × A) (k m : ℕ) (s : S)
      → ((j : ℕ) (t : S) → j < k → g j t ≡ f j t)
      → Extends (scan f k 0 s) (scan g (k + m) 0 s)
  scan-Extends f g k m s same =
      let (zs, e) = scan-add g k m 0 s in
      (zs, e ∙ ap (λ t. t ++ zs) (scan-cong g f k 0 k s same (omega arith)))

  pub scan-AllFrom :
      (P : ℕ → A → Type 0) (step : ℕ → S → S × A) (k i : ℕ) (s : S)
      → ((j : ℕ) (t : S) → P j (step j t).1)
      → AllFrom P i (scan step k i s)
  unfolding scan
  scan-AllFrom P step zero i s one = tt
  scan-AllFrom P step (suc k) i s one = (one i s, scan-AllFrom P step k (suc i) (step i s).0 one)

  -- Rounds that write the same value and leave the variables alone.
  pub scan_quiet :
      (step : ℕ → S → S × A) (o : A) (k i m : ℕ) (s : S)
      → ((j : ℕ) → j < m → step j s ≡ (s, o))
      → i + k ≤ m
      → scan step k i s ≡ replicate k o
  unfolding scan
  scan_quiet step o zero i m s quiet h = refl
  scan_quiet step o (suc k) i m s quiet h =
      ap (λ p. p.1 ∷ scan step k (suc i) p.0) (quiet i (omega arith))
      ∙ ap (λ t. o ∷ t) (scan_quiet step o k (suc i) m s quiet (omega arith))

  pub at-scan :
      (o : A) (step : ℕ → S → S × A) (n i k : ℕ) (s : S)
      → k < n
      → at o (scan step n i s) k ≡ (step (i + k) (state_after step k i s)).1
  unfolding scan state_after
  at-scan o step zero i k s h = absurd (omega arith)
  at-scan o step (suc n) i zero s h = let e : i ≡ i + 0 = omega arith in ap (λ j. (step j s).1) e
  at-scan o step (suc n) i (suc k) s h =
      let e : suc i + k ≡ i + suc k = omega arith in
      at-scan o step n (suc i) k (step i s).0 (omega arith)
      ∙ ap (λ j. (step j (state_after step k (suc i) (step i s).0)).1) e

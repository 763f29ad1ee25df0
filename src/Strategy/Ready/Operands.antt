-- ===== src/Strategy/Ready/Operands.antt =====
-- The operands that Compile accepts can be read from a bar on.
use native.Mathlib.Nat.{zero-add}
use zhigu.Base.{
  ℕ, zero, suc, ◌+◌, ◌-◌, ◌≤◌, ◌<◌, ◌≡◌, refl, ◌∙◌, ap, inl, inr, Bool, true, false, ℤ, pos, negsuc,
  Option, none, some, List, [], ◌∷◌, String, str_eq, eq_iff, map, length, length-map,
  length-replicate, ltb, leb, first, Bool-cases, Option-cases, ok, All, All-map, All-first, at-scan,
  state_after, arith, Decimals, at, replicate, scan, length-scan, is_null, required,
}
use zhigu.Indicators.Averages.{Bar, Value, no_bar, bar}
use zhigu.Indicators.Registry.{Kind, NormalSpec, descriptor}
use zhigu.Indicators.Engine.{Series}
use zhigu.Indicators.Readiness.{Rows, Sound, is_bias}
use zhigu.Strategy.Json.{Json, Fields, get, float_int}
use zhigu.Strategy.Document.{
  Version, is_v2, is_in, has_spec_id, cut, prices, resolve_ref, walk_operand, walk_object, walk_ref,
  operand_lag, lag_or_0, text_or_empty, read_lag, lag_fits, allowed_lag,
}
use zhigu.Strategy.Eval.{
  View, price_of, field_at, always, series_of_ref, shift_step, shifted, lagged, lagged_ref,
  series_of_object, view_of, reading, int_or_0,
}
use zhigu.Strategy.Ready.{Fits, FitsAll, Apart, series_at-Fits}

at-map {ℓ κ} :
    {A : Type ℓ} {B : Type κ} (f : A → B) (o : A) (p : B) (xs : List A) (k : ℕ)
    → k < length xs
    → at p (map f xs) k ≡ f (at o xs k)
at-map f o p [] k h = absurd (omega arith)
at-map f o p (x ∷ xs) zero h = refl
at-map f o p (x ∷ xs) (suc k) h = at-map f o p xs k (omega arith)

at-replicate {ℓ} : {A : Type ℓ} (a o : A) (n k : ℕ) → k < n → at o (replicate n a) k ≡ a
at-replicate a o zero k h = absurd (omega arith)
at-replicate a o (suc n) zero h = refl
at-replicate a o (suc n) (suc k) h = at-replicate a o n k (omega arith)

at-some {ℓ} :
    {A : Type ℓ} (xs : List (Option A)) (k : ℕ) (x : A) → at none xs k ≡ some x → k < length xs
at-some [] k x h = absurd (cc)
at-some (y ∷ xs) zero x h = omega arith
at-some (y ∷ xs) (suc k) x h = omega (arith, at-some xs k x h)

module _ (d : Decimals) (bars : List (Bar d)) (series : List (Series d)) where
  abbrev pub read : View d → ℕ → Option (d.Decimal × Bool)
  read = reading d bars series []

  -- The view has a ready value at every bar from the n-th on.
  abbrev pub HasValue : View d → ℕ → d.Decimal → Type 0
  HasValue v k x = (at none v.0 k ≡ some x) × (k < length v.1) × (at false v.1 k ≡ true)

  abbrev pub IsReadable : ℕ → View d → Type 0
  IsReadable n v = (k : ℕ) → n ≤ k + 1 → k < length bars → (x : d.Decimal) × HasValue v k x

  pub read-some : (v : View d) (k : ℕ) (x : d.Decimal) → HasValue v k x → read v k ≡ some (x, true)
  read-some v k x (e, lt, r) =
      let l : ltb k (length v.1) ≡ true = ground arith in rw (e, reading, l, r) refl

  always-HasValue :
      (vs : List (Value d)) (k : ℕ) (x : d.Decimal)
      → at none vs k ≡ some x
      → k < length bars
      → HasValue (vs, always d bars series []) k x
  always-HasValue vs k x e lt =
      (e, rw (length-replicate (length bars) true) lt, at-replicate true false (length bars) k lt)

  price-IsReadable :
      (n : ℕ) (price : Bar d → d.Decimal)
      → IsReadable n (map (λ b. some (price b)) bars, always d bars series [])
  price-IsReadable n price k le lt = (
    price (bar d bars k),
    always-HasValue _ k _ (at-map (λ b. some (price b)) (no_bar d) none bars k lt) lt,
  )

  constant-IsReadable :
      (n : ℕ) (x : d.Decimal)
      → IsReadable n (replicate (length bars) (some x), always d bars series [])
  constant-IsReadable n x k le lt =
      (x, always-HasValue _ k x (at-replicate (some x) none (length bars) k lt) lt)

  Rows-read :
      (kind : Kind) (w i : ℕ) (vs : List (Value d)) (rs : List Bool) (k : ℕ)
      → is_bias kind ≡ false
      → Rows d (Sound d kind w) i vs rs
      → leb w (i + k + 1) ≡ true
      → k < length rs
      → (x : d.Decimal) × (at none vs k ≡ some x) × (at false rs k ≡ true)
  Rows-read kind w i [] [] k b h le lt = absurd (omega arith)
  Rows-read kind w i [] (r ∷ rs) k b h le lt = absurd h
  Rows-read kind w i (v ∷ vs) [] k b h le lt = absurd h
  Rows-read kind w i (v ∷ vs) (r ∷ rs) zero b h le lt =
      let le' : leb w (i + 1) ≡ true = ground arith in
      let ready = h.0.1 b le' in
      elim (Option-cases v) [
        | inl e ↦ absurd (cc (ap (λ (u : Value d). is_null u) e, (h.0.0 ready).1))
        | inr (x, e) ↦ (x, e, ready)
      ]
  Rows-read kind w i (v ∷ vs) (r ∷ rs) (suc k) b h le lt =
      Rows-read kind w (suc i) vs rs k b h.1 (ground arith) (omega arith)

  field_found :
      (P : List (Value d) → Type 0) (name : String) (fs : List (String × List (Value d)))
      → is_in name (map (λ (f : String × List (Value d)). f.0) fs) ≡ true
      → All (λ (f : String × List (Value d)). P f.1) fs
      → P (field_at d name fs)
  field_found P name [] e h = cc
  field_found P name ((k, vs) ∷ fs) e h = elim (Bool-cases (str_eq k name)) [
    | inl q ↦ rw q h.0
    | inr q ↦
        let q' : str_eq name k ≡ false = ground (arith, eq_iff k name, eq_iff name k) in
        rw q (field_found P name fs (rw q' at e) h.1)
  ]

  Fits-IsReadable :
      (w : ℕ) (n : NormalSpec) (s : Series d) (output : String)
      → Fits d bars w n s
      → is_bias s.kind ≡ false
      → is_in output (descriptor n.kind).outputs ≡ true
      → IsReadable w (field_at d output s.table.fields, s.table.ready)
  Fits-IsReadable w n s output fits b named k le lt =
      let named' : is_in output (map (λ (f : String × List (Value d)). f.0) s.table.fields) ≡ true =
        rw (fits.names, fits.kind) named in
      let rows =
        field_found (λ vs. Rows d (Sound d s.kind s.warmup) 0 vs s.table.ready) output
          s.table.fields named' fits.sound in
      let within : k < length s.table.ready = rw (fits.entries) lt in
      let reached = fits.warmup in
      let (x, e, r) =
        Rows-read s.kind s.warmup 0 (field_at d output s.table.fields) s.table.ready k b rows
          (ground arith) within in
      (x, (e, within, r))

  shifted-IsReadable :
      (n lag : ℕ) (v : View d)
      → 1 ≤ n
      → IsReadable n v
      → IsReadable (n + lag) (shifted d bars series [] lag v)
  unfolding shifted
  shifted-IsReadable n lag v one h k le lt =
      let (x, (e, within, r)) = h (k - lag) (omega arith) (omega arith) in
      let early : ltb k lag ≡ false = ground arith in
      let inside : leb (length v.0) (k - lag) ≡ false =
        let w = at-some v.0 (k - lag) x e in ground arith in
      let seen : ltb (k - lag) (length v.1) ≡ true = ground arith in
      let out = scan (shift_step d bars series [] lag v) (length bars) 0 tt in
      let entries = length-scan (shift_step d bars series [] lag v) (length bars) 0 tt in
      let here =
        at-scan (none, false) (shift_step d bars series [] lag v) (length bars) 0 k tt lt in
      let st = state_after (shift_step d bars series [] lag v) k 0 tt in
      let now = ap (λ j. (shift_step d bars series [] lag v j st).1) (zero-add k) in
      let entry : at (none, false) out k ≡ (some x, true) =
        here ∙ now ∙ rw (early, inside, seen, e, r) refl in
      let k_in : k < length out = rw entries lt in
      (
        x,
        (
          at-map (λ (p : Value d × Bool). p.0) (none, false) none out k k_in
              ∙ ap (λ (p : Value d × Bool). p.0) entry,
          rw (length-map (λ (p : Value d × Bool). p.1) out) k_in,
          at-map (λ (p : Value d × Bool). p.1) (none, false) false out k k_in
              ∙ ap (λ (p : Value d × Bool). p.1) entry,
        ),
      )

  lagged-IsReadable :
      (n lag : ℕ) (v : View d)
      → 1 ≤ n
      → IsReadable n v
      → IsReadable (n + lag) (lagged d bars series [] (pos lag) v)
  lagged-IsReadable n zero v one h = λ k le lt. h k (omega arith) lt
  lagged-IsReadable n (suc lag) v one h = shifted-IsReadable n (suc lag) v one h

  price_of-prices :
      (ref : String)
      → is_in ref prices ≡ true
      → (price : Bar d → d.Decimal) × (price_of d ref ≡ some price)
  price_of-prices ref h = elim (Option-cases (price_of d ref)) [
    | inr found ↦ found
    | inl e ↦ absurd (ground arith)
  ]

  module _ (w : ℕ) (ids : List NormalSpec) (apart : Apart ids) (fits : FitsAll d bars w ids series)
      (no_bias : All (λ (n : NormalSpec). is_bias n.kind ≡ false) ids) where
    resolve_ref-IsReadable :
        (ref : String)
        → resolve_ref ref ids ≡ ok tt
        → (v : View d) × (series_of_ref d bars series [] ref ≡ some v) × IsReadable w v
    unfolding resolve_ref series_of_ref
    resolve_ref-IsReadable ref h = elim (Option-cases (price_of d ref)) [
      | inr (price, e) ↦ (_, rw (e, series_of_ref) refl, price-IsReadable w price)
      | inl e ↦ elim (Bool-cases (is_in ref prices)) [
        | inl q ↦ let (price, p) = price_of-prices ref q in absurd (cc)
        | inr q ↦ elim (Option-cases (cut ref)) [
          | inl c ↦ absurd (ground (arith, q, c))
          | inr ((id, output), c) ↦ elim (Option-cases (first (has_spec_id id) ids)) [
            | inl f ↦ absurd (ground (arith, q, c, f))
            | inr (n, f) ↦
                let named : is_in output (descriptor n.kind).outputs ≡ true =
                  ground (arith, q, c, f) in
                let (s, at_id, fit) = series_at-Fits d bars w id ids series n fits apart f in
                (
                  (field_at d output s.table.fields, s.table.ready),
                  rw (e, c, at_id, series_of_ref) refl,
                  Fits-IsReadable w n s output fit
                      (rw (fit.kind) (
                        All-first (has_spec_id id) (λ (m : NormalSpec). is_bias m.kind ≡ false) ids
                          (All-map _ _ ids (λ m b _. b) no_bias) f))
                      named,
                )
          ]
        ]
      ]
    ]

    lag_read :
        (l : Option Json)
        → lag_fits float_int l ≡ true
        → int_or_0 (read_lag float_int l) ≡ pos (lag_or_0 (read_lag float_int l))
    lag_read none h = refl
    lag_read (some j) h = lag_read_some (float_int j) h
      where
        lag_read_some : (o : Option ℤ) → allowed_lag o ≡ true → int_or_0 o ≡ pos (lag_or_0 o)
        lag_read_some none h = refl
        lag_read_some (some (pos n)) h = refl
        lag_read_some (some (negsuc n)) h = cc

    -- What an operand is once it is accepted: a view, readable from its lag past w on.
    abbrev pub Readable : Option Json → Type 0
    Readable raw =
        (v : View d) × (view_of d bars series [] raw ≡ some v)
        × IsReadable (suc w + operand_lag raw) v

    lift-IsReadable : (v : View d) → IsReadable w v → IsReadable (suc w + 0) v
    lift-IsReadable v h k le lt = h k (omega arith) lt

    walk_ref-parts :
        (obj : Fields)
        → walk_ref obj ids ≡ ok tt
        → (str_eq (text_or_empty (get "ref" obj)) "" ≡ false)
          × (lag_fits float_int (get "lag" obj) ≡ true)
          × (resolve_ref (text_or_empty (get "ref" obj)) ids ≡ ok tt)
    unfolding walk_ref
    walk_ref-parts obj h = (ground arith, ground arith, ground arith)

    walk_ref-Readable :
        (obj : Fields)
        → get "constant" obj ≡ none
        → walk_ref obj ids ≡ ok tt
        → Readable (some (Json.object obj))
    unfolding view_of
    walk_ref-Readable obj free h =
        let (filled, c, h3) = walk_ref-parts obj h in
        let lag = lag_or_0 (read_lag float_int (get "lag" obj)) in
        let ref = text_or_empty (get "ref" obj) in
        let (v, e, r) = resolve_ref-IsReadable ref h3 in
        let named : view_of d bars series [] (some (Json.object obj))
            ≡ lagged_ref d bars series [] ref (int_or_0 (read_lag float_int (get "lag" obj))) =
          rw (free, view_of, series_of_object, filled) refl in
        (
          lagged d bars series [] (pos lag) v,
          named
              ∙ ap (λ (z : ℤ). lagged_ref d bars series [] ref z) (lag_read (get "lag" obj) c)
              ∙ rw (e, lagged_ref) refl,
          lagged-IsReadable (suc w) lag v (omega arith) (λ k le lt. r k (omega arith) lt),
        )

    pub walk_operand-Readable :
        (raw : Option Json) (ver : Version) → walk_operand d raw ids ver ≡ ok tt → Readable raw
    unfolding walk_operand walk_object view_of
    walk_operand-Readable none ver h = absurd (cc)
    walk_operand-Readable (some (Json.bool b)) ver h = absurd (cc)
    walk_operand-Readable (some (Json.number n)) ver h = absurd (cc)
    walk_operand-Readable (some (Json.array js)) ver h = absurd (cc)
    walk_operand-Readable (some (Json.text raw ref)) ver h =
        let (v, e, r) = resolve_ref-IsReadable ref h in (v, e, lift-IsReadable v r)
    walk_operand-Readable (some Json.null) ver h =
        let (v, e, r) = resolve_ref-IsReadable "" h in (v, e, lift-IsReadable v r)
    walk_operand-Readable (some (Json.object obj)) ver h =
        elim (Option-cases (get "constant" obj)) [
          | inr (c, e) ↦ (
            _,
            rw (e, view_of, series_of_object) refl,
            constant-IsReadable (suc w + operand_lag (some (Json.object obj)))
                (required d (text_or_empty (some c))),
          )
          | inl e ↦ elim (Bool-cases (is_v2 ver)) [
            | inl two ↦ walk_ref-Readable obj e (rw (e, two, walk_operand, walk_object) at h)
            | inr one ↦ absurd (cc (rw (e, one, walk_operand, walk_object) at h))
          ]
        ]

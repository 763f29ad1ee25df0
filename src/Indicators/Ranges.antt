-- ===== src/Indicators/Ranges.antt =====
-- What NormalizeSpec guarantees of a specification.
use zhigu.Base.{
  ℕ, ◌≤◌, ◌≡◌, refl, sym, inl, inr, List, [], ◌∷◌, ltb, ◌||◌, ok, ◌>>=◌, >>=-eq-ok, arith,
  Bool-cases, Option-cases, first,
}
use zhigu.Indicators.Registry.{
  Kind, Param, descriptor, Params, Spec, NormalSpec, normalize_params, normalize_spec, warmup_of,
  param, entry, chosen, lookup, has_type, registry, period, normal, with_warmup,
}

-- The parameters that the indicator reads, within their ranges as far as the loops depend on them.
abbrev pub InRange : Kind → Params → Type 0
InRange Kind.macd ps = (2 ≤ param "fast" ps) × (2 ≤ param "slow" ps) × (2 ≤ param "signal" ps)
InRange Kind.vol ps = (2 ≤ param "ma5" ps) × (2 ≤ param "ma10" ps)
InRange Kind.kdj ps = (2 ≤ param "n" ps) × (2 ≤ param "m1" ps) × (2 ≤ param "m2" ps)
InRange Kind.obv ps = Unit {0}
InRange Kind.boll ps = (2 ≤ param "n" ps) × (1 ≤ param "k" ps)
InRange Kind.atr ps = 2 ≤ param "n" ps
InRange Kind.bias ps = 2 ≤ param "n" ps
InRange Kind.cci ps = 2 ≤ param "n" ps
InRange Kind.ema ps = 2 ≤ param "n" ps
InRange Kind.ma ps = 2 ≤ param "n" ps
InRange Kind.rsi ps = 2 ≤ param "n" ps
InRange Kind.wr ps = 2 ≤ param "n" ps

pub normalize_params-cons :
    (p : Param) (ps : List Param) (given out : Params)
    → normalize_params (p ∷ ps) given ≡ ok out
    → (v : ℕ) × (rest : Params) × (out ≡ (p.name, v) ∷ rest)
      × (p.lowest ≤ v)
      × (v ≤ p.highest)
      × (normalize_params ps given ≡ ok rest)
unfolding normalize_params
normalize_params-cons p ps given out h =
    elim (Bool-cases (
      ltb (chosen p (entry p.name given)) p.lowest
      || ltb p.highest (chosen p (entry p.name given)))) [
        | inl e ↦ absurd (ground arith)
        | inr e ↦
            let k : (normalize_params ps given >>= λ out'.
            ok ((p.name, chosen p (entry p.name given)) ∷ out'))
                ≡ ok out =
              ground arith in
            let (rest, r, q) =
              >>=-eq-ok (normalize_params ps given)
                (λ out'. ok ((p.name, chosen p (entry p.name given)) ∷ out')) k in
            (chosen p (entry p.name given), rest, cc, ground arith, ground arith, r)
      ]

InRange_one :
    (n : ℕ) (given out : Params)
    → normalize_params (period "n" n ∷ []) given ≡ ok out
    → 2 ≤ param "n" out
InRange_one n given out h =
    let (v, rest, e, lo, hi, r) = normalize_params-cons (period "n" n) [] given out h in rw e lo

normalize_params-InRange :
    (kind : Kind) (given out : Params)
    → normalize_params (descriptor kind).params given ≡ ok out
    → InRange kind out
normalize_params-InRange Kind.macd given out h =
    let (f, ps, e, f_lo, f_hi, r) = normalize_params-cons _ _ given out h in
    let (s, qs, e', s_lo, s_hi, r') = normalize_params-cons _ _ given ps r in
    let (m, rs, e'', m_lo, m_hi, r'') = normalize_params-cons _ _ given qs r' in
    rw (e, e', e'') (f_lo, s_lo, m_lo)
normalize_params-InRange Kind.kdj given out h =
    let (f, ps, e, f_lo, f_hi, r) = normalize_params-cons _ _ given out h in
    let (s, qs, e', s_lo, s_hi, r') = normalize_params-cons _ _ given ps r in
    let (m, rs, e'', m_lo, m_hi, r'') = normalize_params-cons _ _ given qs r' in
    rw (e, e', e'') (f_lo, s_lo, m_lo)
normalize_params-InRange Kind.vol given out h =
    let (f, ps, e, f_lo, f_hi, r) = normalize_params-cons _ _ given out h in
    let (s, qs, e', s_lo, s_hi, r') = normalize_params-cons _ _ given ps r in
    rw (e, e') (f_lo, s_lo)
normalize_params-InRange Kind.boll given out h =
    let (f, ps, e, f_lo, f_hi, r) = normalize_params-cons _ _ given out h in
    let (s, qs, e', s_lo, s_hi, r') = normalize_params-cons _ _ given ps r in
    rw (e, e') (f_lo, s_lo)
normalize_params-InRange Kind.obv given out h = tt
normalize_params-InRange Kind.atr given out h = InRange_one _ given out h
normalize_params-InRange Kind.bias given out h = InRange_one _ given out h
normalize_params-InRange Kind.cci given out h = InRange_one _ given out h
normalize_params-InRange Kind.ema given out h = InRange_one _ given out h
normalize_params-InRange Kind.ma given out h = InRange_one _ given out h
normalize_params-InRange Kind.rsi given out h = InRange_one _ given out h
normalize_params-InRange Kind.wr given out h = InRange_one _ given out h

pub descriptor-kind : (kind : Kind) → (descriptor kind).kind ≡ kind
descriptor-kind Kind.atr = refl
descriptor-kind Kind.bias = refl
descriptor-kind Kind.boll = refl
descriptor-kind Kind.cci = refl
descriptor-kind Kind.ema = refl
descriptor-kind Kind.kdj = refl
descriptor-kind Kind.ma = refl
descriptor-kind Kind.macd = refl
descriptor-kind Kind.obv = refl
descriptor-kind Kind.rsi = refl
descriptor-kind Kind.vol = refl
descriptor-kind Kind.wr = refl

pub ok-injective : {A : Type 0} {a b : A} → ok a ≡ ok b → a ≡ b
ok-injective h = cc

pub normalize_spec-parts :
    (spec : Spec) (result : NormalSpec × ℕ)
    → normalize_spec spec ≡ ok result
    → (kind : Kind) × (params : Params) × (normalize_params (descriptor kind).params spec.params
        ≡ ok params)
      × (result ≡ with_warmup (normal spec kind params))
unfolding normalize_spec lookup
normalize_spec-parts spec result h = elim (Option-cases (first (has_type spec.type) registry)) [
  | inl e ↦ absurd (ground arith)
  | inr (kind, e) ↦
      let k = rw (e, normalize_spec, lookup, descriptor-kind kind) at h in
      let (params, r, q) =
        >>=-eq-ok (normalize_params (descriptor kind).params spec.params)
          (λ ps. ok (with_warmup (normal spec kind ps))) k in
      (kind, params, r, sym (ok-injective q))
]

-- The warmup is that of the result, and the parameters are in their ranges.
pub normalize_spec-InRange :
    (spec : Spec) (result : NormalSpec × ℕ)
    → normalize_spec spec ≡ ok result
    → (result.1 ≡ warmup_of result.0) × InRange result.0.kind result.0.params
normalize_spec-InRange spec result h =
    let (kind, params, r, e) = normalize_spec-parts spec result h in
    rw e (refl, normalize_params-InRange kind spec.params params r)

-- ===== src/Indicators/Idempotent.antt =====
-- NormalizeSpec applied to its own result, as Compute does for a compiled strategy.
use zhigu.Base.{
  ℕ, ◌≤◌, ◌≡◌, refl, ◌∙◌, sym, subst, inl, inr, false, some, List, [], ◌∷◌, String, str_eq, ltb, ok,
  arith, All, Bool-cases, trim_space, eq_refl,
}
use zhigu.Indicators.Registry.{
  Kind, Param, descriptor, Params, Spec, NormalSpec, normalize_params, normalize_spec, lookup,
  spec_of, type_name, normal, with_warmup, lower_name, entry,
}
use zhigu.Indicators.Ranges.{normalize_params-cons, normalize_spec-parts, descriptor-kind}

lookup-type_name : (kind : Kind) → lookup (type_name kind) ≡ some (descriptor kind)
unfolding lookup trim_space
lookup-type_name Kind.atr = refl
lookup-type_name Kind.bias = refl
lookup-type_name Kind.boll = refl
lookup-type_name Kind.cci = refl
lookup-type_name Kind.ema = refl
lookup-type_name Kind.kdj = refl
lookup-type_name Kind.ma = refl
lookup-type_name Kind.macd = refl
lookup-type_name Kind.obv = refl
lookup-type_name Kind.rsi = refl
lookup-type_name Kind.vol = refl
lookup-type_name Kind.wr = refl

lower_name-filled : (kind : Kind) → str_eq (lower_name kind) "" ≡ false
lower_name-filled Kind.atr = refl
lower_name-filled Kind.bias = refl
lower_name-filled Kind.boll = refl
lower_name-filled Kind.cci = refl
lower_name-filled Kind.ema = refl
lower_name-filled Kind.kdj = refl
lower_name-filled Kind.ma = refl
lower_name-filled Kind.macd = refl
lower_name-filled Kind.obv = refl
lower_name-filled Kind.rsi = refl
lower_name-filled Kind.vol = refl
lower_name-filled Kind.wr = refl

keeps_cons :
    (p : Param) (ps : List Param) (given rest : Params) (v : ℕ)
    → entry p.name given ≡ some v
    → p.lowest ≤ v
    → v ≤ p.highest
    → normalize_params ps given ≡ ok rest
    → normalize_params (p ∷ ps) given ≡ ok ((p.name, v) ∷ rest)
unfolding normalize_params
keeps_cons p ps given rest v e lo hi r =
    let low : ltb v p.lowest ≡ false = ground arith in
    let high : ltb p.highest v ≡ false = ground arith in rw (e, low, high, r) refl

skips :
    (name : String) (v : ℕ) (ps : List Param) (given : Params)
    → All (λ (p : Param). str_eq name p.name ≡ false) ps
    → normalize_params ps ((name, v) ∷ given) ≡ normalize_params ps given
unfolding normalize_params
skips name v [] given h = refl
skips name v (p ∷ ps) given h = rw (h.0, skips name v ps given h.1) refl

abbrev Distinct : List Param → Type 0
Distinct [] = Unit {0}
Distinct (p ∷ ps) = All (λ (q : Param). str_eq p.name q.name ≡ false) ps × Distinct ps

keeps :
    (ps : List Param) (given out : Params)
    → Distinct ps
    → normalize_params ps given ≡ ok out
    → normalize_params ps out ≡ ok out
unfolding normalize_params
keeps [] given out apart h = h
keeps (p ∷ ps) given out apart h =
    let (v, rest, e, lo, hi, r) = normalize_params-cons p ps given out h in
    let again = skips p.name v ps rest apart.0 ∙ keeps ps given rest apart.1 r in
    let found : entry p.name ((p.name, v) ∷ rest) ≡ some v = rw (eq_refl p.name) refl in
    rw e (keeps_cons p ps ((p.name, v) ∷ rest) rest v found lo hi again)

descriptor-Distinct : (kind : Kind) → Distinct (descriptor kind).params
descriptor-Distinct Kind.atr = (tt, tt)
descriptor-Distinct Kind.bias = (tt, tt)
descriptor-Distinct Kind.boll = ((refl, tt), (tt, tt))
descriptor-Distinct Kind.cci = (tt, tt)
descriptor-Distinct Kind.ema = (tt, tt)
descriptor-Distinct Kind.kdj = ((refl, (refl, tt)), ((refl, tt), (tt, tt)))
descriptor-Distinct Kind.ma = (tt, tt)
descriptor-Distinct Kind.macd = ((refl, (refl, tt)), ((refl, tt), (tt, tt)))
descriptor-Distinct Kind.obv = tt
descriptor-Distinct Kind.rsi = (tt, tt)
descriptor-Distinct Kind.vol = ((refl, tt), (tt, tt))
descriptor-Distinct Kind.wr = (tt, tt)

settled :
    (kind : Kind) (m : NormalSpec)
    → m.kind ≡ kind
    → normalize_params (descriptor kind).params m.params ≡ ok m.params
    → str_eq m.id "" ≡ false
    → normalize_spec (spec_of m) ≡ ok (with_warmup m)
unfolding normalize_spec
settled kind m k h named =
    let kinds : (descriptor m.kind).kind ≡ m.kind = descriptor-kind m.kind in
    let params : normalize_params (descriptor m.kind).params m.params ≡ ok m.params = rw k h in
    rw (lookup-type_name m.kind, normalize_spec, params, kinds, named) refl

named :
    (spec : Spec) (kind : Kind) (params : Params) → str_eq (normal spec kind params).id "" ≡ false
named spec kind params = elim (Bool-cases (str_eq spec.id "")) [
  | inl e ↦ rw e (lower_name-filled kind)
  | inr e ↦ rw e e
]

-- A result that is normalized again stays as it is, with the same warmup.
pub normalize_spec-again :
    (spec : Spec) (result : NormalSpec × ℕ)
    → normalize_spec spec ≡ ok result
    → normalize_spec (spec_of result.0) ≡ ok result
normalize_spec-again spec result h =
    let (kind, params, r, e) = normalize_spec-parts spec result h in
    let again = keeps (descriptor kind).params spec.params params (descriptor-Distinct kind) r in
    subst (λ (res : NormalSpec × ℕ). normalize_spec (spec_of res.0) ≡ ok res) (sym e)
      (settled kind (normal spec kind params) refl again (named spec kind params))

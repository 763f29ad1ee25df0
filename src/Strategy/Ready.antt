-- ===== src/Strategy/Ready.antt =====
-- The series of the specifications of a compiled document, which its conditions refer to.
pub mod Operands
pub mod Conditions
use native.Mathlib.Nat.{le_trans}
use zhigu.Base.{
  ℕ, zero, suc, ◌+◌, ◌≤◌, ◌≡◌, refl, sym, ◌∙◌, ap, subst, inl, inr, Bool, true, false, Option, none,
  some, List, [], ◌∷◌, String, str_eq, eq_iff, map, length, ltb, leb, first, if◌then◌else◌,
  Bool-cases, Option-cases, Result, ok, err, Result-cases, ◌>>=◌, >>=-eq-ok, All, arith, Decimals,
}
use zhigu.Indicators.Averages.{Bar, Value}
use zhigu.Indicators.Registry.{
  Kind, Spec, NormalSpec, normalize_spec, spec_of, warmup_of, descriptor, Params,
}
use zhigu.Indicators.Engine.{Series, compute, compute_many, series_of, table_of}
use zhigu.Indicators.Ranges.{ok-injective}
use zhigu.Indicators.Idempotent.{normalize_spec-again}
use zhigu.Indicators.Readiness.{IsSoundTable, Rows, Sound, is_bias, compute-IsSound}
use zhigu.Strategy.Document.{normalize_all, has_spec_id, specs_of, is_in}
use zhigu.Strategy.Eval.{series_at, field_at, later}

-- What a normalized specification is: it is normalized to itself, with a warmup of at most w.
abbrev pub Normal : ℕ → NormalSpec → Type 0
Normal w n = (v : ℕ) × (normalize_spec (spec_of n) ≡ ok (n, v)) × (v ≤ w)

-- No two specifications have one id.
abbrev pub Apart : List NormalSpec → Type 0
Apart [] = Unit {0}
Apart (n ∷ ns) = (first (has_spec_id n.id) ns ≡ none) × Apart ns

str_eq_sym : (s t : String) → str_eq s t ≡ false → str_eq t s ≡ false
str_eq_sym s t h = elim (Bool-cases (str_eq t s)) [
  | inr e ↦ e
  | inl e ↦ absurd (ground (arith, eq_iff s t, eq_iff t s))
]

pub record Normalized (ids : List NormalSpec) (w : ℕ) (result : List NormalSpec × ℕ) : Type 0 where
  pub apart : Apart result.0
  pub fresh : All (λ (n : NormalSpec). first (has_spec_id n.id) ids ≡ none) result.0
  pub normal : All (Normal result.1) result.0
  pub grown : w ≤ result.1

fresh_tail :
    (norm : NormalSpec) (ids ns : List NormalSpec)
    → All (λ (n : NormalSpec). first (has_spec_id n.id) (norm ∷ ids) ≡ none) ns
    → (first (has_spec_id norm.id) ns ≡ none)
      × All (λ (n : NormalSpec). first (has_spec_id n.id) ids ≡ none) ns
fresh_tail norm ids [] h = (refl, tt)
fresh_tail norm ids (n ∷ ns) h =
    let (later_ones, rest) = fresh_tail norm ids ns h.1 in
    elim (Bool-cases (str_eq norm.id n.id)) [
      | inl e ↦ absurd (ground (arith, h.0))
      | inr e ↦
          let e' = str_eq_sym norm.id n.id e in (rw e' later_ones, (ground (arith, h.0), rest))
    ]

larger : (w v : ℕ) → (w ≤ (if ltb w v then v else w)) × (v ≤ (if ltb w v then v else w))
larger w v = (ground arith, ground arith)

Normalized-cons :
    (s : Spec) (norm : NormalSpec) (v : ℕ) (ids : List NormalSpec) (rest : List NormalSpec × ℕ)
    (w : ℕ)
    → normalize_spec s ≡ ok (norm, v)
    → first (has_spec_id norm.id) ids ≡ none
    → Normalized (norm ∷ ids) (if ltb w v then v else w) rest
    → Normalized ids w (norm ∷ rest.0, rest.1)
Normalized-cons s norm v ids rest w q free n =
    let (no_later, fresh) = fresh_tail norm ids rest.0 n.fresh in
    let (le_w, le_v) = larger w v in
    record {
      apart = (no_later, n.apart);
      fresh = (free, fresh);
      normal = ((v, normalize_spec-again s (norm, v) q, le_trans le_v n.grown), n.normal);
      grown = le_trans le_w n.grown;
    }

pub normalize_all-Normalized :
    (specs : List Spec) (ids : List NormalSpec) (w : ℕ) (result : List NormalSpec × ℕ)
    → normalize_all specs ids w ≡ ok result
    → Normalized ids w result
unfolding normalize_all
normalize_all-Normalized [] ids w result h =
    subst (Normalized ids w) (ok-injective h)
      (record { apart = tt; fresh = tt; normal = tt; grown = omega arith })
normalize_all-Normalized (s ∷ specs) ids w result h = elim (Result-cases (normalize_spec s)) [
  | inr (e, q) ↦ absurd (ground (arith, q))
  | inl ((norm, v), q) ↦ elim (Option-cases (first (has_spec_id norm.id) ids)) [
    | inr (n, found) ↦ absurd (ground (arith, q, found))
    | inl free ↦
        let k = rw (q, free, normalize_all) at h in
        let (rest, r, e) =
          >>=-eq-ok (normalize_all specs (norm ∷ ids) (if ltb w v then v else w))
            (λ (rest : List NormalSpec × ℕ). ok (norm ∷ rest.0, rest.1)) k in
        let n = normalize_all-Normalized specs (norm ∷ ids) (if ltb w v then v else w) rest r in
        subst (Normalized ids w) (ok-injective e) (Normalized-cons s norm v ids rest w q free n)
  ]
]

-- A series of the specification that can be read from bar w on.
pub record Fits (d : Decimals) (bars : List (Bar d)) (w : ℕ) (n : NormalSpec) (s : Series d)
    : Type 0 where
  pub id : s.id ≡ n.id
  pub kind : s.kind ≡ n.kind
  pub entries : length s.table.ready ≡ length bars
  pub sound : IsSoundTable d s.kind s.warmup s.table
  pub names :
      map (λ (f : String × List (Value d)). f.0) s.table.fields ≡ (descriptor s.kind).outputs
  pub warmup : s.warmup ≤ w

abbrev pub FitsAll : (d : Decimals) → List (Bar d) → ℕ → List NormalSpec → List (Series d) → Type 0
FitsAll d bars w [] [] = Unit {0}
FitsAll d bars w [] (s ∷ ss) = ⊥
FitsAll d bars w (n ∷ ns) [] = ⊥
FitsAll d bars w (n ∷ ns) (s ∷ ss) = Fits d bars w n s × FitsAll d bars w ns ss

module _ (d : Decimals) (bars : List (Bar d)) where
  table_of-names :
      (kind : Kind) (ps : Params)
      → map (λ (f : String × List (Value d)). f.0) (table_of d bars kind ps).fields
        ≡ (descriptor kind).outputs
  unfolding table_of
  table_of-names Kind.atr ps = refl
  table_of-names Kind.bias ps = refl
  table_of-names Kind.boll ps = refl
  table_of-names Kind.cci ps = refl
  table_of-names Kind.ema ps = refl
  table_of-names Kind.kdj ps = refl
  table_of-names Kind.ma ps = refl
  table_of-names Kind.macd ps = refl
  table_of-names Kind.obv ps = refl
  table_of-names Kind.rsi ps = refl
  table_of-names Kind.vol ps = refl
  table_of-names Kind.wr ps = refl

  compute-Fits :
      (w : ℕ) (n : NormalSpec) (s : Series d)
      → Normal w n
      → compute d bars (spec_of n) ≡ ok s
      → Fits d bars w n s
  unfolding compute series_of
  compute-Fits w n s (v, q, le) h =
      let (entries, sound) = compute-IsSound d bars (spec_of n) s h in
      let same : series_of d bars (n, v) ≡ s = ok-injective (rw (q, compute) at h) in
      record {
        id = ap (λ (r : Series d). r.id) (sym same);
        kind = ap (λ (r : Series d). r.kind) (sym same);
        entries = entries;
        sound = sound;
        names =
            subst
              (λ (r : Series d).
                map (λ (f : String × List (Value d)). f.0) r.table.fields
                ≡ (descriptor r.kind).outputs)
              same (table_of-names n.kind n.params);
        warmup = subst (λ (r : Series d). r.warmup ≤ w) same le;
      }

  pub compute_many-FitsAll :
      (w : ℕ) (ns : List NormalSpec) (ss : List (Series d))
      → All (Normal w) ns
      → compute_many d bars (specs_of ns) ≡ ok ss
      → FitsAll d bars w ns ss
  unfolding compute_many
  compute_many-FitsAll w [] ss normal h = subst (FitsAll d bars w []) (ok-injective h) tt
  compute_many-FitsAll w (n ∷ ns) ss normal h =
      let (s, q, k) =
        >>=-eq-ok (compute d bars (spec_of n))
          (λ row. compute_many d bars (specs_of ns) >>= λ rows. ok (row ∷ rows)) h in
      let (rows, r, e) = >>=-eq-ok (compute_many d bars (specs_of ns)) (λ rows. ok (s ∷ rows)) k in
      subst (FitsAll d bars w (n ∷ ns)) (ok-injective e)
        (compute-Fits w n s normal.0 q, compute_many-FitsAll w ns rows normal.1 r)

  series_at-none :
      (w : ℕ) (id : String) (ns : List NormalSpec) (ss : List (Series d))
      → FitsAll d bars w ns ss
      → first (has_spec_id id) ns ≡ none
      → series_at d id ss ≡ none
  unfolding series_at
  series_at-none w id [] [] h free = refl
  series_at-none w id [] (s ∷ ss) h free = absurd h
  series_at-none w id (n ∷ ns) [] h free = absurd h
  series_at-none w id (n ∷ ns) (s ∷ ss) h free = elim (Bool-cases (str_eq n.id id)) [
    | inl e ↦ absurd (ground (arith, e))
    | inr e ↦
        let e' : str_eq s.id id ≡ false = rw (h.0.id) e in
        rw e' (series_at-none w id ns ss h.1 (ground (arith, e)))
  ]

  -- The series that an id names is that of the specification with the id.
  pub series_at-Fits :
      (w : ℕ) (id : String) (ns : List NormalSpec) (ss : List (Series d)) (n : NormalSpec)
      → FitsAll d bars w ns ss
      → Apart ns
      → first (has_spec_id id) ns ≡ some n
      → (s : Series d) × (series_at d id ss ≡ some s) × Fits d bars w n s
  unfolding series_at
  series_at-Fits w id [] ss n h apart found = absurd (cc)
  series_at-Fits w id (m ∷ ns) [] n h apart found = absurd h
  series_at-Fits w id (m ∷ ns) (s ∷ ss) n h apart found = elim (Bool-cases (str_eq m.id id)) [
    | inl e ↦
        let same : m ≡ n = ground (arith, e) in
        let named : m.id ≡ id = (eq_iff m.id id).0 e in
        let e' : str_eq s.id id ≡ true = rw (h.0.id) e in
        let gone =
          series_at-none w id ns ss h.1
            (subst (λ i. first (has_spec_id i) ns ≡ none) named apart.0) in
        (s, rw (e', gone) refl, subst (λ m. Fits d bars w m s) same h.0)
    | inr e ↦
        let e' : str_eq s.id id ≡ false = rw (h.0.id) e in
        let (t, q, fits) = series_at-Fits w id ns ss n h.1 apart.1 (ground (arith, e)) in
        (t, rw (e', q) refl, fits)
  ]

-- ===== src/Strategy/Warm.antt =====
-- A compiled strategy at the bars from its warmup on.
use zhigu.Base.{
  ℕ, suc, ◌+◌, ◌≤◌, ◌<◌, ◌≡◌, refl, ap, sym, subst, inl, inr, true, false, Option, none, some, List,
  [], ◌∷◌, String, str_eq, length, Option-cases, ok, Error, >>=-eq-ok, guard-eq-ok, All, arith,
  Decimals,
}
use zhigu.Indicators.Averages.{Bar}
use zhigu.Indicators.Registry.{Kind, Spec, NormalSpec, type_name}
use zhigu.Indicators.Engine.{Series, compute_many}
use zhigu.Indicators.Ranges.{ok-injective}
use zhigu.Indicators.Readiness.{is_bias}
use zhigu.Strategy.Json.{Json, height}
use zhigu.Strategy.Document.{
  Version, v2, Document, Compiled, normalize_all, specs_of, walk_cond, max_cond_lag, extra_lag,
  compile, compile_version, compile_with, compile_conditions, compiled_as, price_basis_of,
  check_rest, count_fits, max_cond_depth,
}
use zhigu.Strategy.Eval.{eval_cond}
use zhigu.Strategy.Ready.{Normalized, normalize_all-Normalized, compute_many-FitsAll, FitsAll}
use zhigu.Strategy.Ready.Conditions.{max_node_lag_in, cond_at-Ready}

abbrev pub max_node_lag : Option Json → ℕ
max_node_lag none = 0
max_node_lag (some raw) = max_node_lag_in (suc (height raw)) raw

-- What a document that compiles has gone through.
pub record Passed (d : Decimals) (ver : Version) (doc : Document) (c : Compiled) : Type 0 where
  pub norms : List NormalSpec × ℕ
  pub basis : String
  pub normalizes : normalize_all doc.indicators [] 0 ≡ ok norms
  pub seen : ℕ
  pub nodes : ℕ
  pub entry : walk_cond d (max_cond_depth + 1) norms.0 ver doc.entry 0 ≡ ok seen
  pub exit : walk_cond d (max_cond_depth + 1) norms.0 ver doc.exit seen ≡ ok nodes
  pub result : c ≡ compiled_as d ver doc basis norms

compile_with-Passed :
    (d : Decimals) (ver : Version) (doc : Document) (basis : String) (c : Compiled)
    → compile_with d ver doc basis ≡ ok c
    → Passed d ver doc c
unfolding compile_with compile_conditions
compile_with-Passed d ver doc basis c h =
    let (fits, h1) = guard-eq-ok (count_fits d ver doc.indicators) Error.strategy_invalid _ h in
    let (norms, q, h2) = >>=-eq-ok (normalize_all doc.indicators [] 0) _ h1 in
    let (u, conds, h3) = >>=-eq-ok (compile_conditions d ver doc norms.0) _ h2 in
    let (t, rest, h4) = >>=-eq-ok (check_rest d doc) _ h3 in
    let (seen, entry, k) =
      >>=-eq-ok (walk_cond d (max_cond_depth + 1) norms.0 ver doc.entry 0) _ conds in
    let (nodes, exit, k') =
      >>=-eq-ok (walk_cond d (max_cond_depth + 1) norms.0 ver doc.exit seen) _ k in
    record {
      norms = norms;
      basis = basis;
      normalizes = q;
      seen = seen;
      nodes = nodes;
      entry = entry;
      exit = exit;
      result = sym (ok-injective h4);
    }

compile_version-Passed :
    (d : Decimals) (ver : Version) (doc : Document) (c : Compiled)
    → compile_version d ver doc ≡ ok c
    → Passed d ver doc c
unfolding compile_version
compile_version-Passed d ver doc c h = elim (Option-cases (price_basis_of d doc.price_basis)) [
  | inl e ↦ absurd (ground (arith, e))
  | inr (basis, e) ↦ compile_with-Passed d ver doc basis c (ground (arith, e))
]

compile-Passed :
    (d : Decimals) (doc : Document) (c : Compiled)
    → doc.schema_version ≡ "strategy.v2"
    → compile d doc ≡ ok c
    → Passed d v2 doc c
unfolding compile
compile-Passed d doc c two h =
    let not_v1 : str_eq doc.schema_version "strategy.v1" ≡ false = rw two refl in
    let is_v2 : str_eq doc.schema_version "strategy.v2" ≡ true = rw two refl in
    compile_version-Passed d v2 doc c (rw (not_v1, is_v2, compile) at h)

-- BIAS, which may stay undecided, is no indicator of the strategy.
abbrev pub NoBias : List Spec → Type 0
NoBias = All (λ (s : Spec). str_eq s.type "BIAS" ≡ false)

NoBias-kinds :
    (ns : List NormalSpec)
    → NoBias (specs_of ns)
    → All (λ (n : NormalSpec). is_bias n.kind ≡ false) ns
NoBias-kinds [] h = tt
NoBias-kinds (n ∷ ns) h = (kinds n.kind h.0, NoBias-kinds ns h.1)
  where
    kinds : (k : Kind) → str_eq (type_name k) "BIAS" ≡ false → is_bias k ≡ false
    kinds Kind.bias h = cc
    kinds Kind.atr h = refl
    kinds Kind.boll h = refl
    kinds Kind.cci h = refl
    kinds Kind.ema h = refl
    kinds Kind.kdj h = refl
    kinds Kind.ma h = refl
    kinds Kind.macd h = refl
    kinds Kind.obv h = refl
    kinds Kind.rsi h = refl
    kinds Kind.vol h = refl
    kinds Kind.wr h = refl

extra_lag-covers :
    (d : Decimals) (doc : Document)
    → (max_cond_lag doc.entry ≤ extra_lag d v2 doc) × (max_cond_lag doc.exit ≤ extra_lag d v2 doc)
extra_lag-covers d doc = (ground arith, ground arith)

module _ (d : Decimals) (bars : List (Bar d)) (series : List (Series d)) where
  cond-ready :
      (norms : List NormalSpec × ℕ) (lag i levels m n : ℕ) (raw : Option Json)
      → Normalized [] 0 norms
      → FitsAll d bars norms.1 norms.0 series
      → All (λ (k : NormalSpec). is_bias k.kind ≡ false) norms.0
      → norms.1 + lag ≤ i
      → i < length bars
      → walk_cond d levels norms.0 v2 raw m ≡ ok n
      → max_cond_lag raw ≤ lag
      → max_node_lag raw ≡ 0
      → (eval_cond d bars series [] raw i).1 ≡ true
  unfolding eval_cond walk_cond
  cond-ready norms lag i levels m n none nd fits nb warm lt h l z = absurd (cc)
  cond-ready norms lag i levels m n (some raw) nd fits nb warm lt h l z =
      cond_at-Ready d bars series norms.1 norms.0 nd.apart fits nb v2 lag i warm lt
        (suc (height raw)) levels raw m n (omega arith) h l z []

  -- The conditions of a compiled strategy can be decided at every bar from its warmup on.
  pub compile-ready :
      (doc : Document) (c : Compiled) (i : ℕ)
      → doc.schema_version ≡ "strategy.v2"
      → compile d doc ≡ ok c
      → compute_many d bars c.normalized.indicators ≡ ok series
      → NoBias c.normalized.indicators
      → max_node_lag doc.entry ≡ 0
      → max_node_lag doc.exit ≡ 0
      → c.warmup_bars ≤ i
      → i < length bars
      → ((eval_cond d bars series [] c.normalized.entry i).1 ≡ true)
        × ((eval_cond d bars series [] c.normalized.exit i).1 ≡ true)
  compile-ready doc c i two h computed nb ze zx warm lt =
      let p = compile-Passed d doc c two h in
      let nd = normalize_all-Normalized doc.indicators [] 0 p.norms p.normalizes in
      let same = p.result in
      let specs = ap (λ (r : Compiled). r.normalized.indicators) same in
      let fits =
        compute_many-FitsAll d bars p.norms.1 p.norms.0 series nd.normal
          (subst (λ ss. compute_many d bars ss ≡ ok series) specs computed) in
      let kinds = NoBias-kinds p.norms.0 (subst NoBias specs nb) in
      let bars_needed : c.warmup_bars ≡ p.norms.1 + 1 + extra_lag d v2 doc =
        ap (λ (r : Compiled). r.warmup_bars) same in
      let (le_entry, le_exit) = extra_lag-covers d doc in
      let enough : p.norms.1 + extra_lag d v2 doc ≤ i = omega arith in
      let entry =
        cond-ready p.norms (extra_lag d v2 doc) i (max_cond_depth + 1) 0 p.seen doc.entry nd fits
          kinds enough lt p.entry le_entry ze in
      let exit =
        cond-ready p.norms (extra_lag d v2 doc) i (max_cond_depth + 1) p.seen p.nodes doc.exit nd
          fits kinds enough lt p.exit le_exit zx in
      (
        subst (λ raw. (eval_cond d bars series [] raw i).1 ≡ true)
            (sym (ap (λ (r : Compiled). r.normalized.entry) same)) entry,
        subst (λ raw. (eval_cond d bars series [] raw i).1 ≡ true)
            (sym (ap (λ (r : Compiled). r.normalized.exit) same)) exit,
      )

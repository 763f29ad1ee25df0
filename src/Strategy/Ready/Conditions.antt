-- ===== src/Strategy/Ready/Conditions.antt =====
-- The conditions that Compile accepts can be decided from a bar on.
use zhigu.Base.{
  ℕ, zero, suc, ◌+◌, ◌≤◌, ◌<◌, ◌≡◌, refl, subst, inl, inr, Bool, true, false, ℤ, pos, negsuc, ◌&&◌,
  ◌||◌, Option, none, some, List, [], ◌∷◌, ◌++◌, String, length, Option-cases, ok, err, Error,
  >>=-eq-ok, All, All-map, arith, Decimals,
}
use zhigu.Indicators.Averages.{Bar}
use zhigu.Indicators.Registry.{NormalSpec}
use zhigu.Indicators.Engine.{Series}
use zhigu.Indicators.Readiness.{is_bias}
use zhigu.Strategy.Json.{
  Json, Fields, get, as_map, as_items, as_int, raw_op, height, height-child, height-as_items,
}
use zhigu.Strategy.Document.{
  Version, is_in, operators, walk_operand, walk_leaf, walk_items, walk_list, walk_node, walk_cond,
  greatest, node_lag, operand_lag, lags_of, items_at, child_at, max_cond_lag_in, lag_fits,
  allowed_lag, read_lag, lag_or_0,
}
use zhigu.Strategy.Eval.{
  Segment, all_item, any_item, negated, NodePath, Decision, back, int_or_0, operand, compared,
  leaf_at, gate, group, node_at, cond_at,
}
use zhigu.Strategy.Ready.{FitsAll, Apart}
use zhigu.Strategy.Ready.Operands.{walk_operand-Readable, read-some}

-- The greatest lag of a node itself, beside those of its operands.
unfoldable pub max_node_lag_in : ℕ → Json → ℕ
max_node_lag_in zero raw = 0
max_node_lag_in (suc fuel) raw = elim (as_map (some raw)) [
  | none ↦ 0
  | some obj ↦ greatest (
      lags_of (max_node_lag_in fuel) (items_at "all" obj)
      ∷ lags_of (max_node_lag_in fuel) (items_at "any" obj)
      ∷ child_at (max_node_lag_in fuel) "not" obj
      ∷ node_lag obj
      ∷ [])
]

greatest-All : (ns : List ℕ) (m : ℕ) → greatest ns ≤ m → All (λ n. n ≤ m) ns
greatest-All [] m h = tt
greatest-All (n ∷ ns) m h = (ground arith, greatest-All ns m (ground arith))

abbrev cond_lags : ℕ → Fields → List ℕ
cond_lags fuel obj =
    lags_of (max_cond_lag_in fuel) (items_at "all" obj)
    ∷ lags_of (max_cond_lag_in fuel) (items_at "any" obj)
    ∷ child_at (max_cond_lag_in fuel) "not" obj
    ∷ node_lag obj
    ∷ operand_lag (get "left" obj)
    ∷ operand_lag (get "right" obj)
    ∷ []

abbrev node_lags : ℕ → Fields → List ℕ
node_lags fuel obj =
    lags_of (max_node_lag_in fuel) (items_at "all" obj)
    ∷ lags_of (max_node_lag_in fuel) (items_at "any" obj)
    ∷ child_at (max_node_lag_in fuel) "not" obj
    ∷ node_lag obj
    ∷ []

items_found :
    (key : String) (obj : Fields) (list : Json)
    → get key obj ≡ some list
    → items_at key obj ≡ as_items list
items_found key obj list a = rw (a, items_at) refl

child_found :
    (f : Json → ℕ) (key : String) (obj : Fields) (j : Json)
    → get key obj ≡ some j
    → child_at f key obj ≡ f j
child_found f key obj j a = rw (a, child_at) refl

at_most_0 : {n : ℕ} → n ≡ 0 → n ≤ 0
at_most_0 h = omega arith

zero_only : {n : ℕ} → n ≤ 0 → n ≡ 0
zero_only h = omega arith

module _ (d : Decimals) (bars : List (Bar d)) (series : List (Series d)) (w : ℕ)
    (ids : List NormalSpec) (apart : Apart ids) (fits : FitsAll d bars w ids series)
    (no_bias : All (λ (n : NormalSpec). is_bias n.kind ≡ false) ids) (ver : Version) (lag i : ℕ)
    (warm : w + lag ≤ i) (within : i < length bars) where
  operand-ready :
      (raw : Option Json)
      → walk_operand d raw ids ver ≡ ok tt
      → operand_lag raw ≤ lag
      → (x : d.Decimal) × (operand d bars series [] raw i ≡ some (x, true))
  unfolding operand
  operand-ready raw h le =
      let (v, e, r) = walk_operand-Readable d bars series w ids apart fits no_bias raw ver h in
      let (x, has) = r i (omega arith) within in
      (x, rw (e, operand) (read-some d bars series v i x has))

  compared-ready :
      (obj : Fields) (l r : d.Decimal)
      → is_in (raw_op (get "op" obj)) operators ≡ true
      → (compared d bars series [] obj i l r).1 ≡ true
  compared-ready obj l r h = ground arith

  -- A lag that is allowed and 0 leaves the bar as it is.
  back_self :
      (l : Option Json)
      → lag_fits as_int l ≡ true
      → lag_or_0 (read_lag as_int l) ≡ 0
      → back i (int_or_0 (read_lag as_int l)) ≡ some i
  back_self none h z = ground arith
  back_self (some j) h z = back_some (as_int j) h z
    where
      back_some :
          (o : Option ℤ) → allowed_lag o ≡ true → lag_or_0 o ≡ 0 → back i (int_or_0 o) ≡ some i
      back_some none h z = cc
      back_some (some (pos n)) h z = ground arith
      back_some (some (negsuc n)) h z = cc

  leaf-ready :
      (obj : Fields)
      → walk_leaf d obj ids ver ≡ ok tt
      → node_lag obj ≡ 0
      → operand_lag (get "left" obj) ≤ lag
      → operand_lag (get "right" obj) ≤ lag
      → (leaf_at d bars series [] obj i).1 ≡ true
  unfolding walk_leaf leaf_at
  leaf-ready obj h z l_le r_le =
      let ok_op : is_in (raw_op (get "op" obj)) operators ≡ true = ground arith in
      let ok_lag : lag_fits as_int (get "lag" obj) ≡ true = ground arith in
      let (x, ex) = operand-ready (get "left" obj) (ground arith) l_le in
      let (y, ey) = operand-ready (get "right" obj) (ground arith) r_le in
      rw (back_self (get "lag" obj) ok_lag z, leaf_at, ex, ey) (compared-ready obj x y ok_op)

  abbrev Ready : (Json → NodePath → Decision) → Json → Type 0
  Ready eval j = (path : NodePath) → (eval j path).1 ≡ true

  group-Ready :
      (segment : ℕ → Segment) (join : Bool → Bool → Bool) (eval : Json → NodePath → Decision)
      (path : NodePath) (js : List Json) (k : ℕ) (so_far : Decision)
      → so_far.1 ≡ true
      → All (Ready eval) js
      → (group d bars series [] segment join eval path js k so_far).1 ≡ true
  unfolding group
  group-Ready segment join eval path [] k so_far h all = h
  group-Ready segment join eval path (j ∷ js) k so_far h all =
      let here = all.0 (path ++ segment k ∷ []) in
      group-Ready segment join eval path js (suc k) _ (rw (h, here) refl) all.1

  -- What is known of the children of a node, when it has been shown of all trees of less height.
  abbrev Below : ℕ → ℕ → Type 0
  Below fuel levels =
      (j : Json) (m n : ℕ)
      → height j < fuel
      → walk_cond d levels ids ver (some j) m ≡ ok n
      → max_cond_lag_in fuel j ≤ lag
      → max_node_lag_in fuel j ≡ 0
      → Ready (cond_at d bars series [] fuel i) j

  lags-cons :
      (f : Json → ℕ) (j : Json) (js : List Json) (m : ℕ)
      → lags_of f (j ∷ js) ≤ m
      → (f j ≤ m) × (lags_of f js ≤ m)
  unfolding lags_of
  lags-cons f j js m h = let all = greatest-All (f j ∷ lags_of f js ∷ []) m h in (all.0, all.1.0)

  items-Ready :
      (fuel levels : ℕ)
      → Below fuel levels
      → (js : List Json) (m n : ℕ) → All (λ j. height j < fuel) js
      → walk_items d (walk_cond d levels ids ver) js m ≡ ok n
      → lags_of (max_cond_lag_in fuel) js ≤ lag
      → lags_of (max_node_lag_in fuel) js ≤ 0
      → All (Ready (cond_at d bars series [] fuel i)) js
  unfolding walk_items
  items-Ready fuel levels below [] m n hs h l z = tt
  items-Ready fuel levels below (j ∷ js) m n hs h l z =
      let (seen, q, r) =
        >>=-eq-ok (walk_cond d levels ids ver (some j) m)
          (λ seen. walk_items d (walk_cond d levels ids ver) js seen) h in
      let (l0, l1) = lags-cons (max_cond_lag_in fuel) j js lag l in
      let (z0, z1) = lags-cons (max_node_lag_in fuel) j js 0 z in
      (below j m seen hs.0 q l0 (omega arith), items-Ready fuel levels below js seen n hs.1 r l1 z1)

  list-Ready :
      (fuel levels : ℕ)
      → Below fuel levels
      → (list : Json) (m n : ℕ) → height list < suc fuel
      → walk_list d (walk_cond d levels ids ver) list m ≡ ok n
      → lags_of (max_cond_lag_in fuel) (as_items list) ≤ lag
      → lags_of (max_node_lag_in fuel) (as_items list) ≤ 0
      → All (Ready (cond_at d bars series [] fuel i)) (as_items list)
  unfolding walk_list
  list-Ready fuel levels below list m n hl h l z =
      items-Ready fuel levels below (as_items list) m n
        (All-map (λ j. height j < height list) (λ j. height j < fuel) (as_items list)
          (λ j lt. omega arith) (height-as_items list))
        (walked (as_items list) h) l z
    where
      walked :
          (js : List Json)
          → (elim js [
            | [] ↦ err Error.strategy_invalid
            | x ∷ xs ↦ walk_items d (walk_cond d levels ids ver) (x ∷ xs) m
          ])
            ≡ ok n
          → walk_items d (walk_cond d levels ids ver) js m ≡ ok n
      walked [] h = cc
      walked (x ∷ xs) h = h

  -- The lags of the parts of a node.
  record Parts (fuel : ℕ) (obj : Fields) : Type 0 where
    lag_all : lags_of (max_cond_lag_in fuel) (items_at "all" obj) ≤ lag
    lag_any : lags_of (max_cond_lag_in fuel) (items_at "any" obj) ≤ lag
    lag_not : child_at (max_cond_lag_in fuel) "not" obj ≤ lag
    left : operand_lag (get "left" obj) ≤ lag
    right : operand_lag (get "right" obj) ≤ lag
    none_all : lags_of (max_node_lag_in fuel) (items_at "all" obj) ≤ 0
    none_any : lags_of (max_node_lag_in fuel) (items_at "any" obj) ≤ 0
    none_not : child_at (max_node_lag_in fuel) "not" obj ≤ 0
    none_here : node_lag obj ≤ 0

  parts :
      (fuel : ℕ) (raw : Json) (obj : Fields)
      → as_map (some raw) ≡ some obj
      → max_cond_lag_in (suc fuel) raw ≤ lag
      → max_node_lag_in (suc fuel) raw ≡ 0
      → Parts fuel obj
  unfolding max_cond_lag_in max_node_lag_in
  parts fuel raw obj e h z =
      let lags = greatest-All (cond_lags fuel obj) lag (rw (e, max_cond_lag_in) at h) in
      let z' = rw (e, max_node_lag_in) at z in
      let nodes = greatest-All (node_lags fuel obj) 0 (at_most_0 z') in
      record {
        lag_all = lags.0;
        lag_any = lags.1.0;
        lag_not = lags.1.1.0;
        left = lags.1.1.1.1.0;
        right = lags.1.1.1.1.1.0;
        none_all = nodes.0;
        none_any = nodes.1.0;
        none_not = nodes.1.1.0;
        none_here = nodes.1.1.1.0;
      }

  node-ready :
      (fuel levels : ℕ)
      → Below fuel levels
      → (raw : Json) (obj : Fields) (m n : ℕ) (path : NodePath) → height raw < suc fuel
      → as_map (some raw) ≡ some obj
      → walk_node d (walk_cond d levels ids ver) obj ids ver m ≡ ok n
      → Parts fuel obj
      → (node_at d bars series [] (cond_at d bars series [] fuel i) obj i path).1 ≡ true
  unfolding walk_node node_at
  node-ready fuel levels below raw obj m n path hr e h p = elim (Option-cases (get "all" obj)) [
    | inr (list, a) ↦
        let small = height-child "all" raw e a in
        let all =
          list-Ready fuel levels below list m n (omega arith) (rw (a, walk_node) at h)
            (subst (λ js. lags_of (max_cond_lag_in fuel) js ≤ lag) (items_found "all" obj list a)
              p.lag_all)
            (subst (λ js. lags_of (max_node_lag_in fuel) js ≤ 0) (items_found "all" obj list a)
              p.none_all) in
        rw (a, node_at)
          (group-Ready all_item (λ a b. a && b) (cond_at d bars series [] fuel i) path
            (as_items list) 0 (true, true) refl all)
    | inl no_all ↦ elim (Option-cases (get "any" obj)) [
      | inr (list, a) ↦
          let small = height-child "any" raw e a in
          let all =
            list-Ready fuel levels below list m n (omega arith) (rw (no_all, a, walk_node) at h)
              (subst (λ js. lags_of (max_cond_lag_in fuel) js ≤ lag) (items_found "any" obj list a)
                p.lag_any)
              (subst (λ js. lags_of (max_node_lag_in fuel) js ≤ 0) (items_found "any" obj list a)
                p.none_any) in
          rw (no_all, a, node_at)
            (group-Ready any_item (λ a b. a || b) (cond_at d bars series [] fuel i) path
              (as_items list) 0 (false, true) refl all)
      | inl no_any ↦ elim (Option-cases (get "not" obj)) [
        | inr (j, a) ↦
            let small = height-child "not" raw e a in
            rw (no_all, no_any, a, node_at)
              (below j m n (omega arith) (rw (no_all, no_any, a, walk_node) at h)
                (subst (λ k. k ≤ lag) (child_found (max_cond_lag_in fuel) "not" obj j a) p.lag_not)
                (zero_only (
                  subst (λ k. k ≤ 0) (child_found (max_node_lag_in fuel) "not" obj j a) p.none_not))
                (path ++ negated ∷ []))
        | inl no_not ↦
            let (u, q, r) =
              >>=-eq-ok (walk_leaf d obj ids ver) (λ _. ok m)
                (rw (no_all, no_any, no_not, walk_node) at h) in
            rw (no_all, no_any, no_not, node_at)
              (leaf-ready obj q (zero_only p.none_here) p.left p.right)
      ]
    ]
  ]

  pub cond_at-Ready :
      (fuel levels : ℕ) (raw : Json) (m n : ℕ)
      → height raw < fuel
      → walk_cond d levels ids ver (some raw) m ≡ ok n
      → max_cond_lag_in fuel raw ≤ lag
      → max_node_lag_in fuel raw ≡ 0
      → Ready (cond_at d bars series [] fuel i) raw
  unfolding walk_cond cond_at gate
  cond_at-Ready zero levels raw m n hr h l z path = absurd (omega (arith, hr))
  cond_at-Ready (suc fuel) zero raw m n hr h l z path = absurd (cc)
  cond_at-Ready (suc fuel) (suc levels) raw m n hr h l z path =
      elim (Option-cases (as_map (some raw))) [
        | inl e ↦ absurd (ground (arith, e))
        | inr (obj, e) ↦
            rw (e, cond_at)
              (node-ready fuel levels
                (λ j m' n' hj hw hl hz. cond_at-Ready fuel levels j m' n' hj hw hl hz) raw obj
                (m + 1) n path hr e (rw (e, walk_cond) at h) (parts fuel raw obj e l z))
      ]

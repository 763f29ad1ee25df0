-- ===== src/Strategy/Eval.antt =====
-- service/strategy/eval.go: the evaluation of a condition at a bar, with the checks of continuity of
-- editor.go.
use zhigu.Base.{
  ℕ, zero, suc, ◌+◌, ◌-◌, Bool, true, false, ℤ, pos, negsuc, not, ◌&&◌, ◌||◌, Option, none, some,
  List, [], ◌∷◌, ◌++◌, String, str_eq, map, length, ltb, leb, ◌==◌, if◌then◌else◌, Decimals, le,
  required, at, replicate, scan,
}
use zhigu.Indicators.Averages.{Bar, Value, bar}
use zhigu.Indicators.Engine.{Series, crosses_above, crosses_below}
use zhigu.Strategy.Json.{Json, Fields, get, as_map, as_items, as_int, float_int, raw_op, height}
use zhigu.Strategy.Document.{cut, text_or_empty, read_lag}

-- A step of a path into the tree, and a path, whose steps joinPath writes with `/` between them.
pub data Segment : Type 0 where
  all_item any_item : ℕ → Segment
  negated : Segment

abbrev pub NodePath : Type 0
NodePath = List Segment

abbrev pub same_segment : Segment → Segment → Bool
same_segment (all_item m) (all_item n) = m == n
same_segment (any_item m) (any_item n) = m == n
same_segment negated negated = true
same_segment _ _ = false

abbrev pub same_path : NodePath → NodePath → Bool
same_path [] [] = true
same_path [] (t ∷ ts) = false
same_path (s ∷ ss) [] = false
same_path (s ∷ ss) (t ∷ ts) = same_segment s t && same_path ss ts

-- `root` is "entry" or "exit", which relCheckPath strips. The kind is consecutive_rising_volume, and
-- the reference volume.
pub record ContinuityCheck : Type 0 where
  pub days : ℕ
  pub base_lag : ℕ
  pub root : String
  pub path : NodePath

-- ChecksUnder.
unfoldable pub checks_under : String → List ContinuityCheck → List ContinuityCheck
checks_under root [] = []
checks_under root (c ∷ cs) =
    let rest = checks_under root cs in if str_eq c.root root then c ∷ rest else rest

-- i - lag; none below 0.
abbrev pub back : ℕ → ℤ → Option ℕ
back i (pos lag) = if ltb i lag then none else some (i - lag)
back i (negsuc n) = some (i + suc n)

abbrev pub int_or_0 : Option ℤ → ℤ
int_or_0 none = pos 0
int_or_0 (some lag) = lag

-- Whether the node holds, and whether it could be decided.
abbrev pub Decision : Type 0
Decision = Bool × Bool

abbrev pub undecided : Decision
undecided = (false, false)

module _ (d : Decimals) where
  abbrev pub price_of : String → Option (Bar d → d.Decimal)
  price_of ref =
      if str_eq ref "open"
      then some (λ b. b.open_)
      else if str_eq ref "high"
      then some (λ b. b.high)
      else if str_eq ref "low"
      then some (λ b. b.low)
      else if str_eq ref "close"
      then some (λ b. b.close)
      else if str_eq ref "volume"
      then some (λ b. b.volume)
      else none

  -- A series and its readiness.
  abbrev pub View : Type 0
  View = List (Value d) × List Bool

  abbrev pub field_at : String → List (String × List (Value d)) → List (Value d)
  field_at name [] = []
  field_at name ((k, vs) ∷ fs) = if str_eq k name then vs else field_at name fs

  -- The map from the ids keeps the last series of each.
  abbrev pub later : Series d → Option (Series d) → Series d
  later s none = s
  later s (some t) = t

  unfoldable pub series_at : String → List (Series d) → Option (Series d)
  series_at id [] = none
  series_at id (s ∷ ss) =
      let rest = series_at id ss in if str_eq s.id id then some (later s rest) else rest

  -- checkContinuity: the window of `days` + 1 bars that ends `base_lag` bars back.
  abbrev pub traded : List (Bar d) → ℕ → ℕ → Bool
  traded bars zero from = true
  traded bars (suc k) from = d.lt d.zero (bar d bars from).volume && traded bars k (suc from)

  unfoldable pub check_continuity : ContinuityCheck → List (Bar d) → ℕ → Decision
  check_continuity c bars i =
      if ltb i (c.base_lag + c.days) || leb (length bars) (i - c.base_lag)
      then undecided
      else (traded bars (c.days + 1) (i - c.base_lag - c.days), true)

  module _ (bars : List (Bar d)) (series : List (Series d)) (checks : List ContinuityCheck) where
    abbrev pub always : List Bool
    always = replicate (length bars) true

    unfoldable pub series_of_ref : String → Option View
    series_of_ref ref = elim (price_of ref) [
      | some price ↦ some (map (λ b. some (price b)) bars, always)
      | none ↦ elim (cut ref) [
        | none ↦ none
        | some (id, output) ↦ elim (series_at id series) [
          | none ↦ none
          | some s ↦ some (field_at output s.table.fields, s.table.ready)
        ]
      ]
    ]

    -- out[k] is in[k-lag]; the cache of these views is left out.
    abbrev pub shift_step : ℕ → View → ℕ → Unit {0} → Unit {0} × (Value d × Bool)
    shift_step lag v k _ = (
      tt,
      if ltb k lag || leb (length v.0) (k - lag)
          then (none, false)
          else (at none v.0 (k - lag), ltb (k - lag) (length v.1) && at false v.1 (k - lag)),
    )

    unfoldable pub shifted : ℕ → View → View
    shifted lag v =
        let out = scan (shift_step lag v) (length bars) 0 tt in
        (map (λ (p : Value d × Bool). p.0) out, map (λ (p : Value d × Bool). p.1) out)

    abbrev pub lagged : ℤ → View → View
    lagged (pos zero) v = v
    lagged (pos (suc lag)) v = shifted (suc lag) v
    lagged (negsuc _) v = v

    abbrev pub lagged_ref : String → ℤ → Option View
    lagged_ref ref lag = elim (series_of_ref ref) [ none ↦ none | some v ↦ some (lagged lag v) ]

    abbrev pub series_of_object : Fields → Option View
    series_of_object obj = elim (get "constant" obj) [
      | some c ↦ some (replicate (length bars) (some (required d (text_or_empty (some c)))), always)
      | none ↦
          let ref = text_or_empty (get "ref" obj) in
          if str_eq ref ""
          then none
          else lagged_ref ref (int_or_0 (read_lag float_int (get "lag" obj)))
    ]

    unfoldable pub view_of : Option Json → Option View
    view_of none = none
    view_of (some raw) = elim raw [
      | Json.object obj ↦ series_of_object obj
      | Json.text _ ref ↦ series_of_ref ref
      | Json.null ↦ series_of_ref ""
      | _ ↦ none
    ]

    -- The value at i and its readiness; none is a value that is not there.
    abbrev pub reading : View → ℕ → Option (d.Decimal × Bool)
    reading v i = elim (at none v.0 i) [
      | none ↦ none
      | some x ↦ some (x, if ltb i (length v.1) then at false v.1 i else true)
    ]

    unfoldable pub operand : Option Json → ℕ → Option (d.Decimal × Bool)
    operand raw i = elim (view_of raw) [ none ↦ none | some v ↦ reading v i ]

    abbrev pub crossing :
        (List (Value d) → List (Value d) → List Bool → Option (List Bool) → ℕ → Bool)
        → Option View
        → Option View
        → ℕ
        → Bool
    crossing crosses none r i = false
    crossing crosses (some l) none i = false
    crossing crosses (some l) (some r) i = crosses l.0 r.0 l.1 (some r.1) i

    -- The switch on the operator, whose operands are ready.
    abbrev pub compared : Fields → ℕ → d.Decimal → d.Decimal → Decision
    compared obj i l r =
        let op = raw_op (get "op" obj) in
        let left = view_of (get "left" obj) in
        let right = view_of (get "right" obj) in
        if str_eq op "gt"
        then (d.lt r l, true)
        else if str_eq op "gte"
        then (le d r l, true)
        else if str_eq op "lt"
        then (d.lt l r, true)
        else if str_eq op "lte"
        then (le d l r, true)
        else if str_eq op "eq"
        then (d.eq l r, true)
        else if str_eq op "crosses_above"
        then (crossing (crosses_above d) left right i, true)
        else if str_eq op "crosses_below"
        then (crossing (crosses_below d) left right i, true)
        else undecided

    abbrev pub both_ready :
        Fields → ℕ → Option (d.Decimal × Bool) → Option (d.Decimal × Bool) → Decision
    both_ready obj i none r = undecided
    both_ready obj i (some l) none = undecided
    both_ready obj i (some (l, lready)) (some (r, rready)) =
        if lready && rready then compared obj i l r else undecided

    unfoldable pub leaf_at : Fields → ℕ → Decision
    leaf_at obj i = elim (back i (int_or_0 (read_lag as_int (get "lag" obj)))) [
      | none ↦ undecided
      | some idx ↦ both_ready obj idx (operand (get "left" obj) idx) (operand (get "right" obj) idx)
    ]

    -- The first check at the path that does not pass.
    unfoldable pub gate : List ContinuityCheck → NodePath → ℕ → Option Decision
    gate [] path i = none
    gate (c ∷ cs) path i =
        let rest = gate cs path i in
        let seen = check_continuity c bars i in
        if same_path c.path path
        then (if not seen.1
            then some undecided
            else if not seen.0
            then some (false, true)
            else rest)
        else rest

    -- The loop over the items of a group: `holds` and `ready` so far.
    unfoldable pub group :
        (ℕ → Segment)
        → (Bool → Bool → Bool)
        → (Json → NodePath → Decision)
        → NodePath
        → List Json
        → ℕ
        → Decision
        → Decision
    group segment join eval path [] k so_far = so_far
    group segment join eval path (j ∷ js) k so_far =
        let v = eval j (path ++ segment k ∷ []) in
        group segment join eval path js (suc k) (join so_far.0 v.0, so_far.1 && v.1)

    abbrev pub if_ready : Decision → Decision
    if_ready v = (v.0 && v.1, v.1)

    unfoldable pub node_at : (Json → NodePath → Decision) → Fields → ℕ → NodePath → Decision
    node_at eval obj i path = elim (get "all" obj) [
      | some list ↦
          if_ready (group all_item (λ a b. a && b) eval path (as_items list) 0 (true, true))
      | none ↦ elim (get "any" obj) [
        | some list ↦
            if_ready (group any_item (λ a b. a || b) eval path (as_items list) 0 (false, true))
        | none ↦ elim (get "not" obj) [
          | some j ↦ let v = eval j (path ++ negated ∷ []) in (not v.0 && v.1, v.1)
          | none ↦ leaf_at obj i
        ]
      ]
    ]

    -- condAt; fuel above the height of the tree reaches every node of it.
    unfoldable pub cond_at : ℕ → ℕ → Json → NodePath → Decision
    cond_at zero i raw path = undecided
    cond_at (suc fuel) i raw path = elim (gate checks path i) [
      | some v ↦ v
      | none ↦ elim (as_map (some raw)) [
        | none ↦ undecided
        | some obj ↦ node_at (cond_at fuel i) obj i path
      ]
    ]

    -- EvalCondWithChecks, and without checks EvalCond.
    unfoldable pub eval_cond : Option Json → ℕ → Decision
    eval_cond none i = elim (gate checks [] i) [ some v ↦ v | none ↦ undecided ]
    eval_cond (some raw) i = cond_at (suc (height raw)) i raw []

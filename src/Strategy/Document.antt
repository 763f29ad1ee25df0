-- ===== src/Strategy/Document.antt =====
-- service/strategy/dsl.go: the document of a strategy and what Compile accepts. The lags of
-- conditions are those of maxCondLag in editor.go.
use Prim.Native.Char.{code}
use zhigu.Base.{
  ℕ, zero, suc, ◌+◌, Bool, true, false, ℤ, pos, negsuc, not, ◌&&◌, ◌||◌, Option, none, some, List,
  [], ◌∷◌, String, str_eq, length, ltb, leb, ◌==◌, is_null, first, if◌then◌else◌, Result, ok, err,
  Error, ◌>>=◌, ◌>>◌, guard, trim_space, Decimals, le,
}
use zhigu.Indicators.Registry.{Spec, NormalSpec, normalize_spec, spec_of, descriptor}
use zhigu.Strategy.Json.{
  Json, Fields, get, keys, as_map, as_items, as_int, float_int, raw_op, as_string, height,
}

pub data Version : Type 0 where
  v1 v2 : Version

abbrev pub is_v2 : Version → Bool
is_v2 v1 = false
is_v2 v2 = true

-- `entry` and `exit` are none where the document has no such field.
pub record Document : Type 0 where
  pub schema_version : String
  pub name : String
  pub instrument_id : String
  pub signal_period : String
  pub price_basis : String
  pub indicators : List Spec
  pub entry : Option Json
  pub exit : Option Json
  pub position_type : String
  pub position_value : String
  pub risk_check : String
  pub stop_loss_pct : Option String
  pub take_profit_pct : Option String
  pub max_holding_bars : Option ℤ
  pub execution_timing : String
  pub execution_priority : String

pub record Compiled : Type 0 where
  pub normalized : Document
  pub assumptions : List String
  pub required_data : List String
  pub warmup_bars : ℕ
  pub compiler_version : String

abbrev pub max_indicators : ℕ
max_indicators = 20

abbrev pub max_cond_nodes : ℕ
max_cond_nodes = 100

abbrev pub max_cond_depth : ℕ
max_cond_depth = 8

abbrev pub max_lag : ℕ
max_lag = 250

abbrev pub invalid {ℓ} : {A : Type ℓ} → Result A
invalid = err Error.strategy_invalid

abbrev pub is_in : String → List String → Bool
is_in s [] = false
is_in s (t ∷ ts) = str_eq s t || is_in s ts

-- strings.Cut at the first dot.
abbrev pub prefixed : String → String × String → String × String
prefixed c (before, after) = (c, after)

abbrev pub cut : String → Option (String × String)
cut String.[] = none
cut (String.◌∷◌ c s) = elim (code c == 46) [
  | true ↦ some (String.[], s)
  | false ↦ elim (cut s) [ none ↦ none | some (before, after) ↦ some (String.◌∷◌ c before, after) ]
]

abbrev pub prices : List String
prices = "open" ∷ "high" ∷ "low" ∷ "close" ∷ "volume" ∷ []

abbrev pub has_spec_id : String → NormalSpec → Bool
has_spec_id id s = str_eq s.id id

unfoldable pub resolve_ref : String → List NormalSpec → Result (Unit {0})
resolve_ref ref ids = elim (is_in ref prices) [
  | true ↦ ok tt
  | false ↦ elim (cut ref) [
    | none ↦ invalid
    | some (id, output) ↦ elim (first (has_spec_id id) ids) [
      | none ↦ invalid
      | some spec ↦ guard (is_in output (descriptor spec.kind).outputs) Error.strategy_invalid
    ]
  ]
]

abbrev pub operators : List String
operators = "gt" ∷ "gte" ∷ "lt" ∷ "lte" ∷ "eq" ∷ "crosses_above" ∷ "crosses_below" ∷ []

abbrev pub allowed_lag : Option ℤ → Bool
allowed_lag none = false
allowed_lag (some (negsuc _)) = false
allowed_lag (some (pos n)) = leb n max_lag

-- A lag that is not there is allowed too.
abbrev pub lag_fits : (Json → Option ℤ) → Option Json → Bool
lag_fits read none = true
lag_fits read (some j) = allowed_lag (read j)

abbrev pub only_ref_and_lag : List String → Bool
only_ref_and_lag [] = true
only_ref_and_lag (k ∷ ks) = (str_eq k "ref" || str_eq k "lag") && only_ref_and_lag ks

abbrev pub text_or_empty : Option Json → String
text_or_empty j = elim (as_string j) [ none ↦ "" | some s ↦ s ]

unfoldable pub walk_ref : Fields → List NormalSpec → Result (Unit {0})
walk_ref obj ids =
    let ref = text_or_empty (get "ref" obj) in
    guard (not (str_eq ref "")) Error.strategy_invalid
    >> guard (only_ref_and_lag (keys obj)) Error.strategy_invalid
    >> guard (lag_fits float_int (get "lag" obj)) Error.strategy_invalid
    >> resolve_ref ref ids

abbrev pub greatest : List ℕ → ℕ
greatest [] = 0
greatest (n ∷ ns) = let m = greatest ns in if ltb n m then m else n

abbrev pub lag_or_0 : Option ℤ → ℕ
lag_or_0 (some (pos n)) = n
lag_or_0 (some (negsuc _)) = 0
lag_or_0 none = 0

abbrev pub read_lag : (Json → Option ℤ) → Option Json → Option ℤ
read_lag read none = none
read_lag read (some j) = read j

-- The lag in an operand that is an object, and that of a node.
abbrev pub operand_lag : Option Json → ℕ
operand_lag (some (Json.object o)) = lag_or_0 (read_lag float_int (get "lag" o))
operand_lag _ = 0

abbrev pub node_lag : Fields → ℕ
node_lag obj = lag_or_0 (read_lag as_int (get "lag" obj))

abbrev pub items_at : String → Fields → List Json
items_at key obj = elim (get key obj) [ none ↦ [] | some list ↦ as_items list ]

unfoldable pub lags_of : (Json → ℕ) → List Json → ℕ
lags_of lag [] = 0
lags_of lag (j ∷ js) = greatest (lag j ∷ lags_of lag js ∷ [])

abbrev pub child_at : (Json → ℕ) → String → Fields → ℕ
child_at lag key obj = elim (get key obj) [ none ↦ 0 | some j ↦ lag j ]

-- Fuel above the height of the tree reaches every node of it.
unfoldable pub max_cond_lag_in : ℕ → Json → ℕ
max_cond_lag_in zero raw = 0
max_cond_lag_in (suc fuel) raw = elim (as_map (some raw)) [
  | none ↦ 0
  | some obj ↦ greatest (
      lags_of (max_cond_lag_in fuel) (items_at "all" obj)
      ∷ lags_of (max_cond_lag_in fuel) (items_at "any" obj)
      ∷ child_at (max_cond_lag_in fuel) "not" obj
      ∷ node_lag obj
      ∷ operand_lag (get "left" obj)
      ∷ operand_lag (get "right" obj)
      ∷ [])
]

abbrev pub max_cond_lag : Option Json → ℕ
max_cond_lag none = 0
max_cond_lag (some raw) = max_cond_lag_in (suc (height raw)) raw

-- The specifications in order, under ids that differ, with the largest warmup.
unfoldable pub normalize_all : List Spec → List NormalSpec → ℕ → Result (List NormalSpec × ℕ)
normalize_all [] ids warmup = ok ([], warmup)
normalize_all (s ∷ specs) ids warmup = elim (normalize_spec s) [
  | err _ ↦ invalid
  | ok (norm, w) ↦ elim (first (has_spec_id norm.id) ids) [
    | some _ ↦ invalid
    | none ↦ do
      rest ← normalize_all specs (norm ∷ ids) (if ltb warmup w then w else warmup)
      ok (norm ∷ rest.0, rest.1)
  ]
]

abbrev pub specs_of : List NormalSpec → List Spec
specs_of [] = []
specs_of (s ∷ ss) = spec_of s ∷ specs_of ss

module _ (d : Decimals) where
  unfoldable pub walk_constant : Fields → Json → Result (Unit {0})
  walk_constant obj c =
      guard (not (is_null (d.parse (text_or_empty (some c))))) Error.strategy_invalid
      >> guard (length (keys obj) == 1) Error.strategy_invalid

  unfoldable pub walk_object : Fields → List NormalSpec → Version → Result (Unit {0})
  walk_object obj ids ver = elim (get "constant" obj) [
    | some c ↦ walk_constant obj c
    | none ↦ if is_v2 ver then walk_ref obj ids else invalid
  ]

  -- null is no object here, and as a text it is empty, which is no reference.
  unfoldable pub walk_operand : Option Json → List NormalSpec → Version → Result (Unit {0})
  walk_operand raw ids ver = elim raw [
    | none ↦ invalid
    | some j ↦ elim j [
      | Json.object obj ↦ walk_object obj ids ver
      | Json.text _ ref ↦ resolve_ref ref ids
      | Json.null ↦ resolve_ref "" ids
      | _ ↦ invalid
    ]
  ]

  unfoldable pub walk_leaf : Fields → List NormalSpec → Version → Result (Unit {0})
  walk_leaf obj ids ver =
      guard (is_in (raw_op (get "op" obj)) operators) Error.strategy_invalid
      >> walk_operand (get "left" obj) ids ver
      >> walk_operand (get "right" obj) ids ver
      >> guard (lag_fits as_int (get "lag" obj)) Error.strategy_invalid
      >> guard (is_null (get "expr" obj)) Error.strategy_invalid

  unfoldable pub walk_items : (Option Json → ℕ → Result ℕ) → List Json → ℕ → Result ℕ
  walk_items walk [] nodes = ok nodes
  walk_items walk (j ∷ js) nodes = walk (some j) nodes >>= λ seen. walk_items walk js seen

  unfoldable pub walk_list : (Option Json → ℕ → Result ℕ) → Json → ℕ → Result ℕ
  walk_list walk raw nodes = elim (as_items raw) [
    | [] ↦ invalid
    | j ∷ js ↦ walk_items walk (j ∷ js) nodes
  ]

  unfoldable pub walk_node :
      (Option Json → ℕ → Result ℕ) → Fields → List NormalSpec → Version → ℕ → Result ℕ
  walk_node walk obj ids ver nodes = elim (get "all" obj) [
    | some list ↦ walk_list walk list nodes
    | none ↦ elim (get "any" obj) [
      | some list ↦ walk_list walk list nodes
      | none ↦ elim (get "not" obj) [
        | some j ↦ walk (some j) nodes
        | none ↦ walk_leaf obj ids ver >> ok nodes
      ]
    ]
  ]

  -- `levels` are those that are left: max_cond_depth + 1 - depth. The nodes are counted on the way.
  unfoldable pub walk_cond : ℕ → List NormalSpec → Version → Option Json → ℕ → Result ℕ
  walk_cond levels ids ver none nodes = invalid
  walk_cond zero ids ver (some raw) nodes = invalid
  walk_cond (suc levels) ids ver (some raw) nodes = elim (as_map (some raw)) [
    | none ↦ invalid
    | some obj ↦ walk_node (walk_cond levels ids ver) obj ids ver (nodes + 1)
  ]

  -- A share above 0 and at most 1.
  abbrev pub is_share : Option d.Decimal → Bool
  is_share none = false
  is_share (some f) = not (le d f d.zero) && not (d.lt (d.of_nat 1) f)

  abbrev pub pct_or_nil : Option String → Bool
  pct_or_nil none = true
  pct_or_nil (some v) = str_eq (trim_space v) "" || is_share (d.parse (trim_space v))

  abbrev pub at_least_1 : Option ℤ → Bool
  at_least_1 none = true
  at_least_1 (some (negsuc _)) = false
  at_least_1 (some (pos n)) = leb 1 n

  -- The default of the price basis is none if the basis is not supported.
  abbrev pub price_basis_of : String → Option String
  price_basis_of basis =
      if str_eq basis ""
      then some "causal_qfq"
      else if str_eq basis "raw" || str_eq basis "causal_qfq"
      then some basis
      else none

  abbrev pub required_data : String → List String
  required_data basis =
      "ohlcv.1d.raw"
      ∷ "trading_calendar"
      ∷ "fee_schedule"
      ∷ "lot_tick_rules"
      ∷ (if str_eq basis "causal_qfq" then "corporate_actions.causal" ∷ [] else [])

  abbrev pub extra_lag : Version → Document → ℕ
  extra_lag v1 doc = 0
  extra_lag v2 doc =
      if ltb (max_cond_lag doc.exit) (max_cond_lag doc.entry)
      then max_cond_lag doc.entry
      else max_cond_lag doc.exit

  abbrev pub compiler_version_for : Version → String
  compiler_version_for v1 = "strategy.compile.v1"
  compiler_version_for v2 = "strategy.compile.v2"

  -- The checks after the conditions.
  unfoldable pub check_rest : Document → Result (Unit {0})
  check_rest doc =
      guard (str_eq doc.position_type "equity_fraction") Error.strategy_invalid
      >> guard (is_share (d.parse (trim_space doc.position_value))) Error.strategy_invalid
      >> guard (str_eq doc.risk_check "close") Error.strategy_unsupported
      >> guard (pct_or_nil doc.stop_loss_pct) Error.strategy_invalid
      >> guard (pct_or_nil doc.take_profit_pct) Error.strategy_invalid
      >> guard (at_least_1 doc.max_holding_bars) Error.strategy_invalid
      >> guard
          (str_eq doc.execution_timing "next_session_open"
            && str_eq doc.execution_priority "exit_first")
          Error.strategy_unsupported

  abbrev pub count_fits : Version → List Spec → Bool
  count_fits ver specs = leb (length specs) max_indicators && (is_v2 ver || not (length specs == 0))

  abbrev pub defaulted : String → List String
  defaulted basis = if str_eq basis "" then "未指定价格基准，默认 causal_qfq" ∷ [] else []

  -- The document with its price basis and its specifications normalized.
  abbrev pub normalized_document : Document → String → List NormalSpec → Document
  normalized_document doc basis norms = record doc {
    price_basis = basis;
    indicators = specs_of norms;
  }

  abbrev pub compiled_as : Version → Document → String → List NormalSpec × ℕ → Compiled
  compiled_as ver doc basis norms = record {
    normalized = normalized_document doc basis norms.0;
    assumptions = defaulted doc.price_basis;
    required_data = required_data basis;
    warmup_bars = norms.1 + 1 + extra_lag ver doc;
    compiler_version = compiler_version_for ver;
  }

  unfoldable pub compile_conditions : Version → Document → List NormalSpec → Result (Unit {0})
  compile_conditions ver doc ids = do
    seen ← walk_cond (max_cond_depth + 1) ids ver doc.entry 0
    nodes ← walk_cond (max_cond_depth + 1) ids ver doc.exit seen
    guard (leb nodes max_cond_nodes) Error.strategy_invalid

  unfoldable pub compile_with : Version → Document → String → Result Compiled
  compile_with ver doc basis = do
    guard (count_fits ver doc.indicators) Error.strategy_invalid
    norms ← normalize_all doc.indicators [] 0
    compile_conditions ver doc norms.0
    check_rest doc
    ok (compiled_as ver doc basis norms)

  unfoldable pub compile_version : Version → Document → Result Compiled
  compile_version ver doc =
      guard
        (not (str_eq (trim_space doc.name) "") && not (str_eq (trim_space doc.instrument_id) ""))
        Error.strategy_invalid
      >> guard (str_eq doc.signal_period "1d") Error.strategy_unsupported
      >> elim (price_basis_of doc.price_basis) [
        | none ↦ invalid
        | some basis ↦ compile_with ver doc basis
      ]

  unfoldable pub compile : Document → Result Compiled
  compile doc =
      if str_eq doc.schema_version "strategy.v1"
      then compile_version v1 doc
      else if str_eq doc.schema_version "strategy.v2"
      then compile_version v2 doc
      else invalid

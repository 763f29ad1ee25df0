-- ===== src/Futures/Hypothesis.antt =====
-- service/futures/hypotheses.go: the life of a hypothesis and the checks of what a user enters; and the
-- edit of a hypothesis in domain_hypotheses.go.
pub mod Versions
pub mod Entries
use zhigu.Base.{
  ℕ, ◌+◌, Bool, true, false, not, ◌&&◌, ◌||◌, Option, none, some, List, [], ◌∷◌, String, str_eq,
  contains, trim_space, length, count, leb, ltb, ◌==◌, if◌then◌else◌, null_gt, is_null, Result, ok,
  err, Error, ◌>>=◌, ◌>>◌, guard,
}

-- The CHECK on futures_hypotheses.lifecycle.
pub data Lifecycle : Type 0 where
  draft active paused closed expired deleted : Lifecycle

pub record HypothesisState : Type 0 where
  pub version : ℕ
  pub lifecycle : Lifecycle
  pub user_view : String
  pub view_reason : String
  pub reviewed_check_version : Option ℕ
  pub expires_at : ℕ
  pub needs_review : Bool

unfoldable pub acknowledge_hypothesis : HypothesisState → ℕ → Result HypothesisState
acknowledge_hypothesis state reviewed =
    if null_gt state.reviewed_check_version reviewed
    then err Error.revision_conflict
    else ok (record state {
      reviewed_check_version = some reviewed;
      needs_review = false;
      version = state.version + 1;
    })

abbrev pub is_live : Lifecycle → Bool
is_live active = true
is_live paused = true
is_live _ = false

-- The switch of TransitionHypothesis.
abbrev pub activate : Lifecycle → Option Lifecycle
activate draft = some active
activate _ = none

abbrev pub pause : Lifecycle → Option Lifecycle
pause active = some paused
pause _ = none

abbrev pub resume : Lifecycle → Option Lifecycle
resume paused = some active
resume _ = none

abbrev pub close : Lifecycle → Option Lifecycle
close deleted = none
close closed = none
close _ = some closed

abbrev pub act : String → Lifecycle → Option Lifecycle
act action l =
    if str_eq action "activate"
    then activate l
    else if str_eq action "pause"
    then pause l
    else if str_eq action "resume"
    then resume l
    else if str_eq action "close"
    then close l
    else none

unfoldable pub transition_hypothesis : HypothesisState → String → ℕ → Result HypothesisState
transition_hypothesis state action expected_version =
    if not (state.version == expected_version)
    then err Error.revision_conflict
    else elim (act action state.lifecycle) [
      | none ↦ err Error.invalid_input
      | some l ↦ ok (record state { lifecycle = l; version = state.version + 1 })
    ]

unfoldable pub decide_hypothesis : HypothesisState → String → String → ℕ → Result HypothesisState
decide_hypothesis state view reason reviewed =
    if not (str_eq view "retained" || str_eq view "revised" || str_eq view "rejected")
    then err Error.invalid_input
    else if null_gt state.reviewed_check_version reviewed
    then err Error.revision_conflict
    else ok (record state {
      user_view = view;
      view_reason = reason;
      reviewed_check_version = some reviewed;
      version = state.version + 1;
    })

unfoldable pub expire_hypothesis : HypothesisState → ℕ → HypothesisState
expire_hypothesis state now =
    if is_live state.lifecycle && leb state.expires_at now
    then record state { lifecycle = expired }
    else state

-- A value of a JSON object. Of a number the code asks only whether it is below 2, so that its whole
-- part, or 0 if it is negative, stands for it.
pub data JsonValue : Type 0 where
  null other : JsonValue
  text : String → JsonValue
  number : ℕ → JsonValue

pub record Condition : Type 0 where
  pub id : JsonValue
  pub role : JsonValue
  pub kind : JsonValue
  pub instruction : JsonValue
  pub series_id : JsonValue
  pub operator : JsonValue
  pub threshold : JsonValue
  pub unit : JsonValue
  pub periods : JsonValue

-- `value, _ := condition[key].(string)`.
abbrev pub as_text : JsonValue → String
as_text (text s) = s
as_text _ = ""

abbrev pub is_nil : JsonValue → Bool
is_nil null = true
is_nil _ = false

abbrev pub enough_periods : JsonValue → Bool
enough_periods (number n) = leb 2 n
enough_periods _ = false

abbrev pub valid_condition_operator : String → Bool
valid_condition_operator op =
    str_eq op "gt"
    || str_eq op "gte"
    || str_eq op "lt"
    || str_eq op "lte"
    || str_eq op "eq"
    || str_eq op "ne"

abbrev pub is_measured : Condition → Bool
is_measured c = not (
    str_eq (as_text c.series_id) ""
    || str_eq (as_text c.unit) ""
    || str_eq (as_text c.threshold) ""
    || not (valid_condition_operator (as_text c.operator)))

abbrev pub is_manual : Condition → Bool
is_manual c =
    is_nil c.series_id
    && is_nil c.operator
    && is_nil c.threshold
    && is_nil c.unit
    && is_nil c.periods

unfoldable pub fits_kind : Condition → Bool
fits_kind c =
    let kind = as_text c.kind in
    if str_eq kind "metric_compare" || str_eq kind "metric_change"
    then is_measured c
    else if str_eq kind "consecutive_periods"
    then is_measured c && enough_periods c.periods
    else if str_eq kind "manual"
    then is_manual c
    else false

abbrev pub known : String → List String → Bool
known id [] = false
known id (x ∷ xs) = str_eq x id || known id xs

abbrev pub has_role : String → Condition → Bool
has_role role c = str_eq (as_text c.role) role

unfoldable pub fits_alone : Condition → Bool
fits_alone c =
    not (str_eq (as_text c.id) "" || str_eq (trim_space (as_text c.instruction)) "")
    && (has_role "validation" c || has_role "invalidation" c)
    && fits_kind c

-- The loop, with the ids that it has met.
abbrev pub check_conditions : List String → List Condition → Bool
check_conditions ids [] = true
check_conditions ids (c ∷ cs) =
    not (known (as_text c.id) ids) && fits_alone c && check_conditions (as_text c.id ∷ ids) cs

abbrev pub between : ℕ → ℕ → ℕ → Bool
between low high n = not (ltb n low || ltb high n)

unfoldable pub validate_hypothesis_conditions : List Condition → Result (Unit {0})
validate_hypothesis_conditions cs = do
  guard (between 2 10 (length cs)) Error.invalid_input
  guard (check_conditions [] cs) Error.invalid_input
  guard
      (between 1 5 (count (has_role "validation") cs)
        && between 1 5 (count (has_role "invalidation") cs))
      Error.invalid_input
  ok tt

-- PatchHypothesis with the action "edit": its test of the version, which stands in front of the switch,
-- and the case of the action. The row keeps the proposition and the conditions beside this
-- state; none is a field that is not given.
unfoldable pub edit_hypothesis :
    HypothesisState → ℕ → Option String → Option ℕ → List Condition → ℕ → Result HypothesisState
edit_hypothesis state expected_version proposition expires_at conditions now = do
  guard (state.version == expected_version) Error.revision_conflict
  guard (not (is_null proposition || is_null expires_at || length conditions == 0))
      Error.invalid_input
  validate_hypothesis_conditions conditions
  new_expiry ← elim expires_at as (λ _. Result ℕ) [
    | none ↦ err Error.invalid_input
    | some at ↦ ok at
  ]
  guard (ltb now new_expiry) Error.invalid_input
  ok (record state { expires_at = new_expiry; version = state.version + 1 })

-- A check whose result has changed asks for a review.
abbrev pub ask_review : HypothesisState → HypothesisState
ask_review state = record state { needs_review = true }

pub record RecapState : Type 0 where
  pub facts : String
  pub transmission : String
  pub contract_performance : String
  pub data_sufficiency : String
  pub reason : String

abbrev pub filled : String → Bool
filled s = not (str_eq (trim_space s) "")

unfoldable pub validate_recap : RecapState → Result (Unit {0})
validate_recap r = do
  guard
      (filled r.facts
        && filled r.transmission
        && filled r.contract_performance
        && filled r.data_sufficiency
        && filled r.reason)
      Error.invalid_input
  guard (not (contains r.contract_performance "价格方向")) Error.invalid_input
  ok tt

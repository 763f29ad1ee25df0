-- ===== src/Finance/Verdict.antt =====
-- service/finance/verdict.go: the verdict of a claim and of a report.
pub mod Cited
pub mod Claims
pub mod Grounds
pub mod Report
use zhigu.Base.{
  contains, contains_any, trim_space, ℕ, Bool, true, false, not, ◌&&◌, ◌||◌, List, [], ◌∷◌, ◌++◌,
  map, String, str_eq, length, ◌==◌, if◌then◌else◌,
}

pub record ClaimItem : Type 0 where
  pub claim_id : String
  pub text : String
  pub claim_type : String

pub record Argument : Type 0 where
  pub text : String
  pub evidence_ids : List String

-- The strings "mixed", "supported", "challenged" and "insufficient".
pub data Verdict : Type 0 where
  mixed supported challenged insufficient : Verdict

pub record ClaimResult : Type 0 where
  pub claim_id : String
  pub verdict : Verdict
  pub evidence_ids : List String
  pub reason : String

unfoldable pub looks_like_outlook : String → String → Bool
looks_like_outlook text claim_type =
    contains_any text ("股价" ∷ "目标价" ∷ "买入" ∷ "卖出" ∷ [])
    || (str_eq claim_type "inference" || str_eq claim_type "assumption")
      && contains_any text ("展望" ∷ "前景" ∷ "未来" ∷ "看好" ∷ [])

abbrev pub member : String → List String → Bool
member s [] = false
member s (x ∷ xs) = str_eq x s || member s xs

-- `seen` is the map of what was kept before.
abbrev pub unique_from : List String → List String → List String
unique_from seen [] = []
unique_from seen (s ∷ ss) = elim (str_eq s "" || member s seen) [
  | true ↦ unique_from seen ss
  | false ↦ s ∷ unique_from (s ∷ seen) ss
]

abbrev pub unique : List String → List String
unique = unique_from []

abbrev pub subjects : List String
subjects = "利润" ∷ "营收" ∷ "收入" ∷ "现金流" ∷ "资产" ∷ "负债" ∷ []

abbrev pub share_one_of : List String → String → String → Bool
share_one_of [] a b = false
share_one_of (w ∷ ws) a b = contains a w && contains b w || share_one_of ws a b

unfoldable pub share_subject : String → String → Bool
share_subject = share_one_of subjects

abbrev pub overlaps_trimmed : String → String → Bool
overlaps_trimmed claim argument =
    not (str_eq claim "" || str_eq argument "")
    && (contains claim argument || contains argument claim || share_subject claim argument)

unfoldable pub overlaps_claim : String → String → Bool
overlaps_claim claim argument = overlaps_trimmed (trim_space claim) (trim_space argument)

abbrev pub is_relevant : ClaimItem → Argument → Bool
is_relevant item a =
    not (length a.evidence_ids == 0 || str_eq (trim_space a.text) "")
    && overlaps_claim item.text a.text

abbrev pub filter_relevant : ClaimItem → List Argument → List Argument
filter_relevant item [] = []
filter_relevant item (a ∷ args) =
    let rest = filter_relevant item args in if is_relevant item a then a ∷ rest else rest

unfoldable pub relevant_args : ClaimItem → List Argument → List Argument
relevant_args item args =
    if str_eq item.claim_type "assumption" then [] else filter_relevant item args

abbrev pub all_ids : List Argument → List String
all_ids [] = []
all_ids (a ∷ args) = a.evidence_ids ++ all_ids args

unfoldable pub evidence_ids : List Argument → List String
evidence_ids args = unique (all_ids args)

abbrev pub share_evidence_ids : List String → List String → Bool
share_evidence_ids seen [] = false
share_evidence_ids seen (id ∷ ids) = member id seen || share_evidence_ids seen ids

unfoldable pub share_evidence : Argument → Argument → Bool
share_evidence a b = share_evidence_ids a.evidence_ids b.evidence_ids

-- -1, 0 and 1.
pub data Polarity : Type 0 where
  negative neutral positive : Polarity

unfoldable pub polarity : String → Polarity
polarity text =
    let neg = contains_any text ("下降" ∷ "下滑" ∷ "减少" ∷ "恶化" ∷ "并非" ∷ "不成立" ∷ []) in
    let pos = contains_any text ("增长" ∷ "上升" ∷ "改善" ∷ "增加" ∷ []) in
    if neg && pos then neutral else if neg then negative else if pos then positive else neutral

-- The product is below 0.
abbrev pub opposite : Polarity → Polarity → Bool
opposite negative positive = true
opposite positive negative = true
opposite _ _ = false

unfoldable pub clash : Argument → Argument → Bool
clash s c =
    (share_evidence s c || share_subject s.text c.text)
    && opposite (polarity s.text) (polarity c.text)

abbrev pub clashes_with : Argument → List Argument → Bool
clashes_with s [] = false
clashes_with s (c ∷ cs) = clash s c || clashes_with s cs

unfoldable pub contradicts : List Argument → List Argument → Bool
contradicts [] challenge = false
contradicts (s ∷ support) challenge = clashes_with s challenge || contradicts support challenge

abbrev pub is_empty : List String → Bool
is_empty ids = length ids == 0

abbrev pub result : String → Verdict → List String → String → ClaimResult
result claim_id verdict ids reason = record {
  claim_id = claim_id;
  verdict = verdict;
  evidence_ids = ids;
  reason = reason;
}

abbrev pub mixed_result : String → List Argument → List Argument → ClaimResult
mixed_result claim_id sup chal =
    result claim_id mixed (unique (evidence_ids sup ++ evidence_ids chal)) "同一历史事实存在已核验且未消解的实质矛盾"

-- The switch of JudgeClaim, at the relevant arguments.
unfoldable pub weigh : String → List Argument → List Argument → ClaimResult
weigh claim_id sup chal =
    if contradicts sup chal
    then mixed_result claim_id sup chal
    else if not (is_empty (evidence_ids chal)) && is_empty (evidence_ids sup)
    then result claim_id challenged (evidence_ids chal) "仅反驳证据成立"
    else if not (is_empty (evidence_ids sup))
    then result claim_id supported (evidence_ids sup) "仅支持证据成立"
    else result claim_id insufficient [] "证据不足"

unfoldable pub judge_claim : ClaimItem → List Argument → List Argument → ClaimResult
judge_claim item support challenge =
    if looks_like_outlook item.text item.claim_type
    then result item.claim_id insufficient [] "展望或股价预测未绑定已披露事实"
    else weigh item.claim_id (relevant_args item support) (relevant_args item challenge)

abbrev pub judge_claims : List ClaimItem → List Argument → List Argument → List ClaimResult
judge_claims items support challenge = map (λ item. judge_claim item support challenge) items

abbrev pub some_verdict : (Verdict → Bool) → List ClaimResult → Bool
some_verdict test [] = false
some_verdict test (r ∷ rs) = test r.verdict || some_verdict test rs

abbrev pub is_mixed : Verdict → Bool
is_mixed mixed = true
is_mixed _ = false

abbrev pub is_supported : Verdict → Bool
is_supported supported = true
is_supported _ = false

abbrev pub is_challenged : Verdict → Bool
is_challenged challenged = true
is_challenged _ = false

abbrev pub is_insufficient : Verdict → Bool
is_insufficient insufficient = true
is_insufficient _ = false

unfoldable pub judge_report : List ClaimResult → Verdict
judge_report results =
    let sup = some_verdict is_supported results in
    let chal = some_verdict is_challenged results in
    if some_verdict is_mixed results || sup && chal
    then mixed
    else if some_verdict is_insufficient results
    then insufficient
    else if sup && not chal
    then supported
    else if chal && not sup
    then challenged
    else insufficient

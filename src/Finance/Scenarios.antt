-- ===== src/Finance/Scenarios.antt =====
-- Tests of the models of service/finance, and instances of their theorems.
use zhigu.Base.{
  ◌<◌, ◌≡◌, ◌↔◌, inl, inr, refl, true, false, none, some, List, [], ◌∷◌, String, str_eq, contains,
  contains_any, trim_space, length, count, All, Elem, Result, ok, err, arith,
}
use zhigu.Finance.Verdict.{
  ClaimItem, Argument, Verdict, supported, challenged, ClaimResult, judge_claim, judge_report,
  looks_like_outlook, contradicts, relevant_args, all_ids, member, is_empty, overlaps_claim,
  evidence_ids, share_evidence, share_subject, polarity, clash, weigh, result,
}
use zhigu.Finance.Verdict.Claims.{Drawn, judge_claim-Drawn}
use zhigu.Finance.Verdict.Grounds.{judge_claim-supported, judge_claim-founded}
use zhigu.Finance.Verdict.Report.{verdicts, judge_report_same, judge_report-unanimous}
use zhigu.Finance.Snapshot.{
  PolicyView, SnapshotJson, freeze_budget_snapshot, parse_budget_snapshot, snapshot_json,
}
use zhigu.Finance.Snapshot.Sound.{Usable, budget_snapshot-Usable}
use zhigu.Finance.Calls.{
  BudgetRequest, Reservation, Books, reserve, reserve_new, reservation, snapshot_of,
}
use zhigu.Finance.Calls.Limits.{reserves, Charged, CallStep-Charged}
use zhigu.Finance.Calls.Repeats.{reserve-repeats}
use zhigu.Base.{ℕ, Related, update}
use zhigu.Finance.Runs.{ResearchRun, queued, canceling, fail_queue_timeouts, converge_cancels}
use zhigu.Finance.Runs.Versions.{Onward, start, then_, fails_queued, converges, Writes-Onward}

abbrev claim : ClaimItem
claim = record { claim_id = "claim_1"; text = "利润增长"; claim_type = "fact" }

abbrev growth : List Argument
growth = record { text = "利润增长 20%"; evidence_ids = "ev_1" ∷ "ev_1" ∷ [] } ∷ []

-- It speaks of the profit and cites evidence, but its words have no polarity.
abbrev doubt : List Argument
doubt = record { text = "利润来自一次性补贴"; evidence_ids = "ev_2" ∷ [] } ∷ []

-- The claim counts as supported although there is evidence that challenges it.
supported_all_the_same : (judge_claim claim growth doubt).verdict ≡ supported
unfolding judge_claim weigh looks_like_outlook contains_any contains relevant_args trim_space
    overlaps_claim evidence_ids contradicts clash share_evidence share_subject polarity
supported_all_the_same = refl

judge_claim-Drawn_example : Drawn growth doubt (judge_claim claim growth doubt)
judge_claim-Drawn_example = judge_claim-Drawn claim growth doubt

judge_claim-supported_example : ((judge_claim claim growth doubt).verdict ≡ supported) ↔ (
    (looks_like_outlook claim.text claim.claim_type ≡ false)
    × (contradicts (relevant_args claim growth) (relevant_args claim doubt) ≡ false)
    × (id : String) × (member id (all_ids (relevant_args claim growth)) ≡ true)
    × (str_eq id "" ≡ false))
judge_claim-supported_example = judge_claim-supported claim growth doubt

judge_claim-founded_example : is_empty (judge_claim claim growth doubt).evidence_ids ≡ false
unfolding judge_claim weigh looks_like_outlook contains_any contains relevant_args trim_space
    overlaps_claim evidence_ids contradicts clash share_evidence share_subject polarity
judge_claim-founded_example = judge_claim-founded claim growth doubt refl (λ h. cc)

abbrev yes : ClaimResult
yes = result "claim_1" supported ("ev_1" ∷ []) ""

abbrev no : ClaimResult
no = result "claim_2" challenged ("ev_2" ∷ []) ""

swapped :
    (v : Verdict) → Elem v (verdicts (yes ∷ no ∷ [])) ↔ Elem v (verdicts (no ∷ yes ∷ yes ∷ []))
swapped v = (
  (λ h. elim h [ inl e ↦ inr (inl e) | inr m ↦ elim m [ inl e ↦ inl e | inr n ↦ elim n [ ] ] ]),
  (λ h. elim h [
    | inl e ↦ inr (inl e)
    | inr m ↦ elim m [ inl e ↦ inl e | inr n ↦ elim n [ inl e ↦ inl e | inr o ↦ elim o [ ] ] ]
  ]),
)

judge_report_same_example : judge_report (yes ∷ no ∷ []) ≡ judge_report (no ∷ yes ∷ yes ∷ [])
judge_report_same_example = judge_report_same (yes ∷ no ∷ []) (no ∷ yes ∷ yes ∷ []) swapped

judge_report-unanimous_example :
    ((judge_report (yes ∷ no ∷ []) ≡ supported)
      ↔ ((0 < length (yes ∷ no ∷ [])) × All (λ r. r.verdict ≡ supported) (yes ∷ no ∷ [])))
    × ((judge_report (yes ∷ no ∷ []) ≡ challenged)
        ↔ ((0 < length (yes ∷ no ∷ [])) × All (λ r. r.verdict ≡ challenged) (yes ∷ no ∷ [])))
judge_report-unanimous_example = judge_report-unanimous (yes ∷ no ∷ [])

-- Three model calls at most, one of them for each role by the policy's total.

abbrev policy : PolicyView
policy = record {
  max_model_calls = 3;
  max_tool_calls = 0;
  run_timeout_seconds = 0;
  queue_timeout_seconds = 60;
}

abbrev odd_column : SnapshotJson
odd_column = record {
  max_model_calls = some 1;
  max_tool_calls = none;
  max_model_calls_per_role = some 5;
  max_tool_calls_per_role = some 0;
  run_timeout_seconds = none;
  queue_timeout_seconds = none;
}

budget_snapshot-Usable_example :
    Usable (freeze_budget_snapshot policy)
    × (parse_budget_snapshot (snapshot_json (freeze_budget_snapshot policy))
        ≡ freeze_budget_snapshot policy)
    × Usable (parse_budget_snapshot odd_column)
budget_snapshot-Usable_example = budget_snapshot-Usable policy odd_column

abbrev books : Books
books = record { runs = record { id = "run_1"; budget_snapshot = odd_column } ∷ []; usage = [] }

abbrev request : BudgetRequest
request = record {
  request_id = "request_1";
  owner_id = 7;
  run_id = "run_1";
  task_id = "task_1";
  parse_id = "";
  question_id = "";
  purpose = "research";
  kind = "model";
  reserved_input = 100;
  reserved_output = 50;
}

abbrev granted : Result (Reservation × Books)
granted = reserve "usage_1" request books

abbrev after : Result (Reservation × Books) → Books
after (ok (_, c)) = c
after (err _) = books

granted_ok : granted ≡ ok (reservation "usage_1" request, after granted)
unfolding reserve reserve_new snapshot_of parse_budget_snapshot count
granted_ok = refl

books-Charged : Charged books
unfolding count
books-Charged = record { standing = tt; within = λ kind run_id named. omega arith }

CallStep-Charged_example : Charged (after granted)
CallStep-Charged_example =
    CallStep-Charged (reserves "usage_1" request (reservation "usage_1" request) granted_ok)
      books-Charged

-- The repetition asks for other amounts.
reserve-repeats_example :
    (reservation "usage_1" request ≡ reservation "usage_1" request)
    × (reserve "usage_2" (record request { reserved_input = 9 }) (after granted)
        ≡ ok (reservation "usage_1" (record request { reserved_input = 9 }), after granted))
reserve-repeats_example =
    reserve-repeats "usage_1" request books (after granted) (reservation "usage_1" request)
      granted_ok "usage_2" (record request { reserved_input = 9 }) refl

abbrev waiting_row : ResearchRun
waiting_row = record {
  id = "run_1";
  status = queued;
  stage = "queued";
  budget_snapshot = odd_column;
  deadline_at = none;
  lease_owner = none;
  lease_until = none;
  version = 1;
  deleted_at = none;
  created_at = 0;
  updated_at = 0;
}

abbrev stopping_row : ResearchRun
stopping_row = record waiting_row {
  id = "run_2";
  status = canceling;
  stage = "deleting";
  version = 4;
}

abbrev two_rows : List ResearchRun
two_rows = waiting_row ∷ stopping_row ∷ []

abbrev late : ℕ
late = 200_000_000_000

abbrev stages : List ResearchRun → List (ℕ × String)
stages [] = []
stages (r ∷ rs) = (r.version, r.stage) ∷ stages rs

-- The run that waited too long has failed.
no_longer_waiting :
    stages (fail_queue_timeouts late two_rows) ≡ (2, "queue_timeout") ∷ (4, "deleting") ∷ []
unfolding fail_queue_timeouts update parse_budget_snapshot
no_longer_waiting = refl

Writes-Onward_example :
    Related Onward two_rows (converge_cancels (λ _. false) late (fail_queue_timeouts late two_rows))
Writes-Onward_example =
    Writes-Onward {rs = two_rows}
      (then_ (then_ start (fails_queued late)) (converges (λ _. false) late))

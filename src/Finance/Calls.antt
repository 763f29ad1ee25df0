-- ===== src/Finance/Calls.antt =====
-- service/finance/budget_service.go: the calls of a run, of a task and of a parse.
pub mod Limits
pub mod Repeats
use zhigu.Base.{
  ℕ, ◌+◌, Bool, true, false, not, ◌&&◌, ◌||◌, Option, none, some, List, ◌∷◌, String, str_eq, count,
  first, update, leb, if◌then◌else◌, Result, ok, err, Error, ◌>>=◌, ◌>>◌, guard,
}
use zhigu.Finance.Snapshot.{
  BudgetSnapshot, SnapshotJson, default_budget_snapshot, parse_budget_snapshot,
}

-- The CHECK on finance_usage_ledger.status.
pub data UsageStatus : Type 0 where
  reserved succeeded failed unknown : UsageStatus

pub record UsageLedger : Type 0 where
  pub id : String
  pub owner_id : ℕ
  pub run_id : Option String
  pub task_id : Option String
  pub question_id : Option String
  pub parse_id : Option String
  pub request_id : String
  pub purpose : String
  pub kind : String
  pub status : UsageStatus
  pub reserved_tokens : ℕ
  pub actual_tokens : Option ℕ
  pub upstream_request_id : Option String

pub record BudgetRequest : Type 0 where
  pub request_id : String
  pub owner_id : ℕ
  pub run_id : String
  pub task_id : String
  pub parse_id : String
  pub question_id : String
  pub purpose : String
  pub kind : String
  pub reserved_input : ℕ
  pub reserved_output : ℕ

pub record Reservation : Type 0 where
  pub id : String
  pub request_id : String
  pub reserved_input : ℕ
  pub reserved_output : ℕ

pub record ObservedUsage : Type 0 where
  pub actual_input : Option ℕ
  pub actual_output : Option ℕ
  pub is_unknown : Bool
  pub upstream_request_id : String

-- A row of finance_research_runs, as far as it is read here.
pub record RunBudget : Type 0 where
  pub id : String
  pub budget_snapshot : SnapshotJson

pub record Books : Type 0 where
  pub runs : List RunBudget
  pub usage : List UsageLedger

-- SQL's `column = ?` on a nullable text.
abbrev pub text_eq : Option String → String → Bool
text_eq none s = false
text_eq (some t) s = str_eq t s

abbrev pub or_null : String → Option String
or_null s = if str_eq s "" then none else some s

abbrev pub is_charged : UsageStatus → Bool
is_charged failed = false
is_charged _ = true

abbrev pub charged_to_run : String → String → UsageLedger → Bool
charged_to_run kind run_id u = str_eq u.kind kind && is_charged u.status && text_eq u.run_id run_id

-- Without a run and a parse every row of the kind counts.
abbrev pub in_scope : BudgetRequest → UsageLedger → Bool
in_scope request u =
    str_eq u.kind request.kind
    && is_charged u.status
    && (if not (str_eq request.run_id "")
        then text_eq u.run_id request.run_id
        else if not (str_eq request.parse_id "")
        then text_eq u.parse_id request.parse_id
        else true)

abbrev pub of_task : BudgetRequest → UsageLedger → Bool
of_task request u =
    str_eq u.kind request.kind && text_eq u.task_id request.task_id && is_charged u.status

unfoldable pub snapshot_of : String → List RunBudget → BudgetSnapshot
snapshot_of run_id runs = elim (first (λ (r : RunBudget). str_eq r.id run_id) runs) [
  | none ↦ default_budget_snapshot
  | some r ↦ parse_budget_snapshot r.budget_snapshot
]

abbrev pub request_snapshot : BudgetRequest → List RunBudget → BudgetSnapshot
request_snapshot request runs =
    if str_eq request.run_id "" then default_budget_snapshot else snapshot_of request.run_id runs

abbrev pub run_max : String → BudgetSnapshot → ℕ
run_max kind s = if str_eq kind "tool" then s.max_tool_calls else s.max_model_calls

abbrev pub role_max : String → BudgetSnapshot → ℕ
role_max kind s =
    if str_eq kind "tool" then s.max_tool_calls_per_role else s.max_model_calls_per_role

abbrev pub usage_row : String → BudgetRequest → UsageLedger
usage_row id request = record {
  id = id;
  owner_id = request.owner_id;
  run_id = or_null request.run_id;
  task_id = or_null request.task_id;
  question_id = or_null request.question_id;
  parse_id = or_null request.parse_id;
  request_id = request.request_id;
  purpose = request.purpose;
  kind = request.kind;
  status = reserved;
  reserved_tokens = request.reserved_input + request.reserved_output;
  actual_tokens = none;
  upstream_request_id = none;
}

abbrev pub has_request : String → UsageLedger → Bool
has_request request_id u = str_eq u.request_id request_id

abbrev pub reservation : String → BudgetRequest → Reservation
reservation id request = record {
  id = id;
  request_id = request.request_id;
  reserved_input = request.reserved_input;
  reserved_output = request.reserved_output;
}

-- A request that is not in the ledger; `id` is a new uuid, so that only the request could collide.
unfoldable pub reserve_new : String → BudgetRequest → Books → Result (Reservation × Books)
reserve_new id request b = do
  let snap = request_snapshot request b.runs
  guard (not (leb (run_max request.kind snap) (count (in_scope request) b.usage)))
      Error.budget_exceeded
  guard
      (str_eq request.task_id ""
        || not (leb (role_max request.kind snap) (count (of_task request) b.usage)))
      Error.budget_exceeded
  ok (reservation id request, record b { usage = usage_row id request ∷ b.usage })

-- The row of the scheduler is locked, so that reservations take turns.
unfoldable pub reserve : String → BudgetRequest → Books → Result (Reservation × Books)
reserve id request b =
    if str_eq request.request_id ""
    then err Error.missing_request_id
    else elim (first (has_request request.request_id) b.usage) [
      | some u ↦ ok (reservation u.id request, b)
      | none ↦ reserve_new id request b
    ]

abbrev pub observed_total : ObservedUsage → Option ℕ → Option ℕ
observed_total w before = elim w.actual_input [
  | none ↦ before
  | some i ↦ elim w.actual_output [ none ↦ before | some o ↦ some (i + o) ]
]

abbrev pub observe : ObservedUsage → UsageLedger → UsageLedger
observe w u = record u {
  status = if w.is_unknown then unknown else succeeded;
  actual_tokens = if w.is_unknown then u.actual_tokens else observed_total w u.actual_tokens;
  upstream_request_id =
      if str_eq w.upstream_request_id "" then u.upstream_request_id else some w.upstream_request_id;
}

-- The ids are the primary key.
unfoldable pub reconcile : String → ObservedUsage → Books → Result Books
reconcile id w b = elim (first (λ (u : UsageLedger). str_eq u.id id) b.usage) [
  | none ↦ err Error.reservation_not_found
  | some _ ↦
      ok (record b { usage = update (λ (u : UsageLedger). str_eq u.id id) (observe w) b.usage })
]

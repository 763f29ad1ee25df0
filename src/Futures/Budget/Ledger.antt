-- ===== src/Futures/Budget/Ledger.antt =====
-- service/futures/budget.go: the accounts of a day and the reservations on them.
use zhigu.Base.{
  ℕ, ◌+◌, Bool, true, false, not, ◌&&◌, ◌||◌, none, some, List, ◌∷◌, String, str_eq, count, first,
  update, ltb, ◌==◌, if◌then◌else◌, Result, ok, err, Error, ◌>>=◌, ◌>>◌, guard,
}

-- Amounts are natural multiples of 10⁻¹² CNY: the columns are NUMERIC(38,12) and checked to be at
-- least 0. A day stands for the DATE of `budget_date`.
pub data AccountScope : Type 0 where
  user module_wide : AccountScope

-- What Reserve is asked for.
pub record Reservation : Type 0 where
  pub attempt_id : String
  pub owner_id : ℕ
  pub run_id : String
  pub budget_day : ℕ
  pub amount_cny : ℕ
  pub tokens : ℕ
  pub kind : String
  pub max_model_calls : ℕ
  pub max_tool_calls : ℕ
  pub max_tokens : ℕ

pub record BudgetAccount : Type 0 where
  pub owner_id : ℕ
  pub scope : AccountScope
  pub budget_date : ℕ
  pub limit_cny : ℕ
  pub reserved_cny : ℕ
  pub spent_cny : ℕ
  pub model_calls : ℕ
  pub tool_calls : ℕ
  pub tokens : ℕ
  pub model_call_limit : ℕ
  pub tool_call_limit : ℕ
  pub token_limit : ℕ

-- The CHECK on futures_budget_reservations.state.
pub data ReservationState : Type 0 where
  reserved settled unknown : ReservationState

pub record BudgetReservation : Type 0 where
  pub attempt_id : String
  pub owner_id : ℕ
  pub run_id : String
  pub budget_day : ℕ
  pub amount_cny : ℕ
  pub tokens : ℕ
  pub kind : String
  pub state : ReservationState

pub record BudgetUsage : Type 0 where
  pub attempt_id : String
  pub owner_id : ℕ
  pub run_id : String
  pub usage_state : String

pub record Ledger : Type 0 where
  pub accounts : List BudgetAccount
  pub reservations : List BudgetReservation
  pub usage : List BudgetUsage

abbrev pub same_scope : AccountScope → AccountScope → Bool
same_scope user user = true
same_scope module_wide module_wide = true
same_scope _ _ = false

-- `scope=? AND owner_id=? AND budget_date=?`, the primary key.
abbrev pub is_account : AccountScope → ℕ → ℕ → BudgetAccount → Bool
is_account scope owner_id day a =
    same_scope a.scope scope && a.owner_id == owner_id && a.budget_date == day

abbrev pub new_account : AccountScope → ℕ → ℕ → ℕ → ℕ → ℕ → ℕ → BudgetAccount
new_account scope owner_id day limit model_calls tool_calls tokens = record {
  owner_id = owner_id;
  scope = scope;
  budget_date = day;
  limit_cny = limit;
  reserved_cny = 0;
  spent_cny = 0;
  model_calls = 0;
  tool_calls = 0;
  tokens = 0;
  model_call_limit = model_calls;
  tool_call_limit = tool_calls;
  token_limit = tokens;
}

-- `OnConflict{DoNothing: true}`.
unfoldable pub seed_account : AccountScope → ℕ → ℕ → ℕ → ℕ → ℕ → ℕ → Ledger → Ledger
seed_account scope owner_id day limit model_calls tool_calls tokens l =
    if ltb 0 (count (is_account scope owner_id day) l.accounts) then l else record l {
      accounts = new_account scope owner_id day limit model_calls tool_calls tokens ∷ l.accounts;
    }

abbrev pub lock_budget_account : AccountScope → ℕ → ℕ → Ledger → Result BudgetAccount
lock_budget_account scope owner_id day l = elim (first (is_account scope owner_id day) l.accounts) [
  | none ↦ err Error.not_found
  | some a ↦ ok a
]

abbrev pub is_model : Reservation → Bool
is_model request = str_eq request.kind "model"

abbrev pub is_tool : Reservation → Bool
is_tool request = str_eq request.kind "tool"

-- The four tests of Reserve that lead to ErrQuotaExceeded, for one account.
abbrev pub over_amount : Reservation → BudgetAccount → Bool
over_amount request a = ltb a.limit_cny (a.reserved_cny + a.spent_cny + request.amount_cny)

abbrev pub over_tokens : Reservation → BudgetAccount → Bool
over_tokens request a = ltb 0 a.token_limit && ltb a.token_limit (a.tokens + request.tokens)

abbrev pub over_model_calls : BudgetAccount → Bool
over_model_calls a = ltb a.model_call_limit (a.model_calls + 1)

abbrev pub over_tool_calls : BudgetAccount → Bool
over_tool_calls a = ltb a.tool_call_limit (a.tool_calls + 1)

abbrev pub over_quota : Reservation → BudgetAccount → BudgetAccount → Bool
over_quota request u m =
    over_amount request u || over_amount request m || over_tokens request u || over_tokens request m

abbrev pub charged : Reservation → BudgetAccount → BudgetAccount
charged request a = record a {
  reserved_cny = a.reserved_cny + request.amount_cny;
  tokens = a.tokens + request.tokens;
  model_calls = if is_model request then a.model_calls + 1 else a.model_calls;
  tool_calls = if is_tool request then a.tool_calls + 1 else a.tool_calls;
}

abbrev pub add_budget_usage : AccountScope → ℕ → ℕ → Reservation → Ledger → Ledger
add_budget_usage scope owner_id day request l = record l {
  accounts = update (is_account scope owner_id day) (charged request) l.accounts;
}

abbrev pub is_attempt : String → BudgetReservation → Bool
is_attempt attempt_id r = str_eq r.attempt_id attempt_id

abbrev pub new_reservation : Reservation → BudgetReservation
new_reservation request = record {
  attempt_id = request.attempt_id;
  owner_id = request.owner_id;
  run_id = request.run_id;
  budget_day = request.budget_day;
  amount_cny = request.amount_cny;
  tokens = request.tokens;
  kind = request.kind;
  state = reserved;
}

-- The primary key is attempt_id, and `kind` is checked to be one of two.
abbrev pub insert_reservation : Reservation → Ledger → Result Ledger
insert_reservation request l =
    if ltb 0 (count (is_attempt request.attempt_id) l.reservations)
      || not (is_model request || is_tool request)
    then err Error.database
    else ok (record l { reservations = new_reservation request ∷ l.reservations })

unfoldable pub reserve : Reservation → Ledger → Result (BudgetReservation × Ledger)
reserve request l = do
  u ← lock_budget_account user request.owner_id request.budget_day l
  m ← lock_budget_account module_wide 0 request.budget_day l
  guard (not (over_quota request u m)) Error.quota_exceeded
  guard (not (is_model request && (over_model_calls u || over_model_calls m))) Error.quota_exceeded
  guard (not (is_tool request && (over_tool_calls u || over_tool_calls m))) Error.quota_exceeded
  t ← insert_reservation request (
      add_budget_usage module_wide 0 request.budget_day request
        (add_budget_usage user request.owner_id request.budget_day request l))
  ok (new_reservation request, t)

-- ===== src/Finance/Snapshot.antt =====
-- service/finance/run_state.go: the budget that a run is given.
pub mod Sound
use zhigu.Base.{ℕ, Option, none, some, leb, ltb, ◌==◌, if◌then◌else◌}

-- In all of these a number that is negative stands as 0: every test of the code treats them alike.
pub record BudgetSnapshot : Type 0 where
  pub max_model_calls : ℕ
  pub max_tool_calls : ℕ
  pub max_model_calls_per_role : ℕ
  pub max_tool_calls_per_role : ℕ
  pub run_timeout_seconds : ℕ
  pub queue_timeout_seconds : ℕ

abbrev pub default_budget_snapshot : BudgetSnapshot
default_budget_snapshot = record {
  max_model_calls = 14;
  max_tool_calls = 12;
  max_model_calls_per_role = 4;
  max_tool_calls_per_role = 6;
  run_timeout_seconds = 180;
  queue_timeout_seconds = 30;
}

pub record PolicyView : Type 0 where
  pub max_model_calls : ℕ
  pub max_tool_calls : ℕ
  pub run_timeout_seconds : ℕ
  pub queue_timeout_seconds : ℕ

abbrev pub at_most : ℕ → ℕ → ℕ
at_most limit n = if ltb limit n then limit else n

abbrev pub or_default : ℕ → ℕ → ℕ
or_default default n = if ltb 0 n then n else default

unfoldable pub freeze_budget_snapshot : PolicyView → BudgetSnapshot
freeze_budget_snapshot policy =
    let models = or_default 14 policy.max_model_calls in
    let tools = or_default 12 policy.max_tool_calls in
    record {
      max_model_calls = models;
      max_tool_calls = tools;
      max_model_calls_per_role = at_most models 4;
      max_tool_calls_per_role = at_most tools 6;
      run_timeout_seconds = or_default 180 policy.run_timeout_seconds;
      queue_timeout_seconds = or_default 30 policy.queue_timeout_seconds;
    }

-- The fields that json.Unmarshal sets; an empty column sets none.
pub record SnapshotJson : Type 0 where
  pub max_model_calls : Option ℕ
  pub max_tool_calls : Option ℕ
  pub max_model_calls_per_role : Option ℕ
  pub max_tool_calls_per_role : Option ℕ
  pub run_timeout_seconds : Option ℕ
  pub queue_timeout_seconds : Option ℕ

abbrev pub set : ℕ → Option ℕ → ℕ
set before none = before
set before (some n) = n

unfoldable pub parse_budget_snapshot : SnapshotJson → BudgetSnapshot
parse_budget_snapshot raw =
    let models = or_default 14 (set 14 raw.max_model_calls) in
    let tools = or_default 12 (set 12 raw.max_tool_calls) in
    record {
      max_model_calls = models;
      max_tool_calls = tools;
      max_model_calls_per_role = at_most models (or_default 4 (set 4 raw.max_model_calls_per_role));
      max_tool_calls_per_role = at_most tools (or_default 6 (set 6 raw.max_tool_calls_per_role));
      run_timeout_seconds = set 180 raw.run_timeout_seconds;
      queue_timeout_seconds = set 30 raw.queue_timeout_seconds;
    }

-- json.Marshal of a snapshot.
abbrev pub snapshot_json : BudgetSnapshot → SnapshotJson
snapshot_json s = record {
  max_model_calls = some s.max_model_calls;
  max_tool_calls = some s.max_tool_calls;
  max_model_calls_per_role = some s.max_model_calls_per_role;
  max_tool_calls_per_role = some s.max_tool_calls_per_role;
  run_timeout_seconds = some s.run_timeout_seconds;
  queue_timeout_seconds = some s.queue_timeout_seconds;
}

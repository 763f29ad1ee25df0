-- ===== src/Finance/Snapshot/Sound.antt =====
-- Every snapshot allows some calls, and a role no more of them than the run.
use zhigu.Base.{◌<◌, ◌≤◌, ◌≡◌, arith}
use zhigu.Finance.Snapshot.{
  BudgetSnapshot, PolicyView, SnapshotJson, freeze_budget_snapshot, parse_budget_snapshot,
  snapshot_json,
}

pub record Usable (s : BudgetSnapshot) : Type 0 where
  pub models : 0 < s.max_model_calls_per_role
  pub tools : 0 < s.max_tool_calls_per_role
  pub models_of_run : s.max_model_calls_per_role ≤ s.max_model_calls
  pub tools_of_run : s.max_tool_calls_per_role ≤ s.max_tool_calls

-- Whatever the policy is, the snapshot that is frozen is usable, and it is the one that is parsed from
-- its JSON; and whatever a column holds, the snapshot that is parsed from it is usable.
pub budget_snapshot-Usable :
    (policy : PolicyView) (raw : SnapshotJson)
    → Usable (freeze_budget_snapshot policy)
      × (parse_budget_snapshot (snapshot_json (freeze_budget_snapshot policy))
          ≡ freeze_budget_snapshot policy)
      × Usable (parse_budget_snapshot raw)
unfolding freeze_budget_snapshot parse_budget_snapshot
budget_snapshot-Usable policy raw = (
  record {
    models = ground arith;
    tools = ground arith;
    models_of_run = ground arith;
    tools_of_run = ground arith;
  },
  ground arith,
  record {
    models = ground arith;
    tools = ground arith;
    models_of_run = ground arith;
    tools_of_run = ground arith;
  },
)

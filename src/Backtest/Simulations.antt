-- ===== src/Backtest/Simulations.antt =====
-- A simulation of four days with whole numbers, and the theorems at it. service/backtest/engine.go.
use zhigu.Base.{
  ◌≤◌, ℕ, ◌≡◌, refl, none, some, false, List, [], ◌∷◌, String, All, commit, pos, whole, ◌+ℤ◌, ◌-ℤ◌,
  ◌*ℤ◌, div_ℤ, trim_space,
}
use zhigu.Indicators.Averages.{Bar}
use zhigu.Indicators.Engine.{compute_many}
use zhigu.Strategy.Json.{Json, Fields, height}
use zhigu.Strategy.Document.{Document}
use zhigu.Strategy.Eval.{
  eval_cond, cond_at, node_at, leaf_at, operand, view_of, series_of_ref, shifted, series_at, gate,
  checks_under,
}
use zhigu.Backtest.Ledger.{
  sum_from, sellable_from, reduce_lots, floor_lot, limit_blocked, fee_total, fee_list,
}
use zhigu.Backtest.Orders.{Order, capped, execute, execute_buy, execute_sell}
use zhigu.Backtest.Actions.{apply_actions, apply_each, hit_risk, cost_from, action_level}
use zhigu.Backtest.Days.{Input, RunState, run_days, run_day, execute_pending, evaluate, decide}
use zhigu.Backtest.Run.{Report, RunResult, run, succeeded, setting, initial, report}
use zhigu.Backtest.Metrics.{metrics, rate, filled_of, count_rounds}
use zhigu.Backtest.RoundTrips.{is_buy, is_sell, metrics-RoundTrips}
use zhigu.Backtest.Later.{Later, run-Later}
use zhigu.Backtest.Flat.{Single, run_days-Single}
use zhigu.Backtest.Scenarios.{day, stock_rule, whole-Lawful}

abbrev ref : String → Json
ref name = Json.text name name

abbrev close_and : String → String → Json
close_and name value = Json.object (
    Fields.field "op" (ref name) (
      Fields.field "left" (ref "close") (
        Fields.field "right" (Json.object (Fields.field "constant" (ref value) Fields.end))
          Fields.end)))

-- Buy where the day closes above 10, sell where it closes below 5.
abbrev rising : Document
rising = record {
  schema_version = "strategy.v2";
  name = "";
  instrument_id = "600000.SH";
  signal_period = "1d";
  price_basis = "raw";
  indicators = [];
  entry = some (close_and "gt" "10");
  exit = some (close_and "lt" "5");
  position_type = "equity_fraction";
  position_value = "1";
  risk_check = "close";
  stop_loss_pct = none;
  take_profit_pct = none;
  max_holding_bars = none;
  execution_timing = "next_session_open";
  execution_priority = "exit_first";
}

abbrev four_days : List (Bar whole)
four_days = day "2024-01-02" 12 ∷ day "2024-01-03" 8 ∷ day "2024-01-04" 4 ∷ day "2024-01-05" 6 ∷ []

abbrev input : Input whole
input = record {
  doc = rising;
  compiled = record {
    normalized = rising;
    assumptions = [];
    required_data = [];
    warmup_bars = 0;
    compiler_version = "strategy.compile.v2";
  };
  continuity = [];
  raw = four_days;
  signal = [];
  asset_type = "stock";
  rule = stock_rule;
  actions = [];
  config = record {
    start = "";
    end_ = "";
    initial_cash = "100";
    slippage_bps = "0";
    participation_cap = "1";
  };
  suspended = λ _. false;
}

-- What is left after some days.
abbrev sides : List Order → List String
sides [] = []
sides (o ∷ orders) = o.signal_id ∷ o.submitted ∷ sides orders

abbrev outline : RunResult → List String
outline (RunResult.failed _) = []
outline (succeeded r) = sides r.orders

-- Bought on the second day on the signal of the first, sold on the fourth on that of the third.
outlined :
    outline (run whole input)
    ≡ "entry_2024-01-02" ∷ "2024-01-03" ∷ "exit_2024-01-04" ∷ "2024-01-05" ∷ []
unfolding run run_days run_day execute_pending evaluate decide apply_actions apply_each hit_risk
    cost_from action_level execute execute_buy execute_sell capped floor_lot sum_from sellable_from
    reduce_lots limit_blocked fee_total fee_list eval_cond cond_at node_at leaf_at operand view_of
    series_of_ref shifted series_at gate checks_under compute_many ◌+ℤ◌ ◌-ℤ◌ ◌*ℤ◌ div_ℤ trim_space
    height
outlined = refl

abbrev report_of : RunResult → Report
report_of (RunResult.failed _) = report whole input (initial whole (pos 0))
report_of (succeeded r) = r

run-Later_example : All (Later whole four_days 4) (report_of (run whole input)).orders
unfolding run run_days run_day execute_pending evaluate decide apply_actions apply_each hit_risk
    cost_from action_level execute execute_buy execute_sell capped floor_lot sum_from sellable_from
    reduce_lots limit_blocked fee_total fee_list eval_cond cond_at node_at leaf_at operand view_of
    series_of_ref shifted series_at gate checks_under compute_many ◌+ℤ◌ ◌-ℤ◌ ◌*ℤ◌ div_ℤ trim_space
    height
run-Later_example = run-Later whole input (report_of (run whole input)) refl

abbrev after_days : ℕ → RunState whole
after_days n =
    commit (initial whole (pos 100))
      (run_days whole (setting whole input four_days []) n 0 (initial whole (pos 100)))

-- After three days the shares are held and their sale is pending.
run_days-Single_example : Single whole whole-Lawful (after_days 3)
unfolding run_days run_day execute_pending evaluate decide apply_actions apply_each hit_risk
    cost_from action_level execute execute_buy execute_sell capped floor_lot sum_from sellable_from
    reduce_lots limit_blocked fee_total fee_list eval_cond cond_at node_at leaf_at operand view_of
    series_of_ref shifted series_at gate checks_under compute_many ◌+ℤ◌ ◌-ℤ◌ ◌*ℤ◌ div_ℤ trim_space
    height
run_days-Single_example =
    run_days-Single whole whole-Lawful input four_days [] (pos 100) 3 (after_days 3) refl

-- One round trip of a buy and a sale.
metrics-RoundTrips_example :
    let r = report_of (run whole input) in
    (1 ≤ filled_of whole is_buy r.orders)
    × (1 ≤ filled_of whole is_sell r.orders)
    × ((wins : ℕ) × (wins ≤ 1)
        × ((metrics whole r.equity r.fills r.orders input.config).win_rate ≡ rate whole wins 1))
unfolding metrics count_rounds filled_of run run_days run_day execute_pending evaluate decide
    apply_actions apply_each hit_risk cost_from action_level execute execute_buy execute_sell capped
    floor_lot sum_from sellable_from reduce_lots limit_blocked fee_total fee_list eval_cond cond_at
    node_at leaf_at operand view_of series_of_ref shifted series_at gate checks_under compute_many
    ◌+ℤ◌ ◌-ℤ◌ ◌*ℤ◌ div_ℤ trim_space height
metrics-RoundTrips_example =
    metrics-RoundTrips whole (report_of (run whole input)).equity
      (report_of (run whole input)).fills (report_of (run whole input)).orders input.config 1 refl

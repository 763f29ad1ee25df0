-- ===== src/Strategy/Scenarios.antt =====
-- Tests of the strategies, and instances of their theorems.
use zhigu.Base.{
  ℕ, ◌≡◌, refl, none, some, true, false, List, [], ◌∷◌, String, ok, arith, pos, whole, ◌+ℤ◌, ◌-ℤ◌,
  div_ℤ, scan, trim_space,
}
use zhigu.Indicators.Averages.{Bar, sma_close}
use zhigu.Indicators.Registry.{
  Kind, NormalSpec, normalize_spec, normalize_params, lookup, warmup_of,
}
use zhigu.Indicators.Engine.{Series, compute, compute_many, series_of, table_of}
use zhigu.Strategy.Json.{Json, Fields, height}
use zhigu.Strategy.Document.{
  Document, Compiled, compile, compile_version, compile_with, compile_conditions, check_rest,
  normalize_all, walk_cond, walk_node, walk_leaf, walk_operand, walk_object, walk_constant,
  walk_ref, resolve_ref, max_cond_lag_in, lags_of,
}
use zhigu.Strategy.Eval.{
  eval_cond, cond_at, node_at, leaf_at, operand, view_of, series_of_ref, shifted, series_at, gate,
}
use zhigu.Strategy.Ready.Conditions.{max_node_lag_in}
use zhigu.Strategy.Warm.{compile-ready}

abbrev day : ℕ → Bar whole
day price = record {
  time = "";
  open_ = pos price;
  high = pos price;
  low = pos price;
  close = pos price;
  volume = pos 100;
}

abbrev five_days : List (Bar whole)
five_days = day 10 ∷ day 12 ∷ day 20 ∷ day 20 ∷ day 30 ∷ []

abbrev op : String → Json → Json → Json
op name left right = Json.object (
    Fields.field "op" (Json.text name name)
      (Fields.field "left" left (Fields.field "right" right Fields.end)))

abbrev ref : String → Json
ref name = Json.text name name

abbrev one_bar_before : String → Json
one_bar_before name = Json.object (
    Fields.field "ref" (ref name) (
      Fields.field "lag" (Json.number (record { integral = true; negative = false; size = 1 }))
        Fields.end))

abbrev constant : String → Json
constant value = Json.object (Fields.field "constant" (ref value) Fields.end)

-- Buy above the closing price of the day before, on the average of two days; sell below 5.
abbrev rising : Document
rising = record {
  schema_version = "strategy.v2";
  name = "上涨";
  instrument_id = "600000.SH";
  signal_period = "1d";
  price_basis = "";
  indicators = record { id = ""; type = "MA"; params = ("n", 2) ∷ [] } ∷ [];
  entry = some (op "gt" (ref "ma.ma") (one_bar_before "close"));
  exit = some (op "lt" (ref "close") (constant "5"));
  position_type = "equity_fraction";
  position_value = "1";
  risk_check = "close";
  stop_loss_pct = none;
  take_profit_pct = none;
  max_holding_bars = none;
  execution_timing = "next_session_open";
  execution_priority = "exit_first";
}

abbrev average : NormalSpec
average = record { id = "ma"; kind = Kind.ma; params = ("n", 2) ∷ [] }

abbrev compiled : Compiled
compiled = record {
  normalized = record rising {
    price_basis = "causal_qfq";
    indicators = record { id = "ma"; type = "MA"; params = ("n", 2) ∷ [] } ∷ [];
  };
  assumptions = "未指定价格基准，默认 causal_qfq" ∷ [];
  required_data =
      "ohlcv.1d.raw" ∷ "trading_calendar" ∷ "fee_schedule" ∷ "lot_tick_rules"
      ∷ "corporate_actions.causal" ∷ [];
  warmup_bars = 4;
  compiler_version = "strategy.compile.v2";
}

compiles : compile whole rising ≡ ok compiled
unfolding compile compile_version compile_with compile_conditions check_rest normalize_all walk_cond
    walk_node walk_leaf walk_operand walk_object walk_constant walk_ref resolve_ref max_cond_lag_in
    lags_of normalize_spec normalize_params lookup warmup_of trim_space height
compiles = refl

abbrev averages : List (Series whole)
averages = series_of whole five_days (average, 2) ∷ []

computes : compute_many whole five_days compiled.normalized.indicators ≡ ok averages
unfolding compute_many compute normalize_spec normalize_params lookup warmup_of trim_space
computes = refl

-- On the fifth day the average is 25, above the 20 of the day before.
enters : eval_cond whole five_days averages [] compiled.normalized.entry 4 ≡ (true, true)
unfolding eval_cond cond_at node_at leaf_at operand view_of series_of_ref shifted series_at gate
    series_of table_of sma_close scan ◌+ℤ◌ ◌-ℤ◌ div_ℤ height
enters = refl

compile-ready_example :
    ((eval_cond whole five_days averages [] compiled.normalized.entry 4).1 ≡ true)
    × ((eval_cond whole five_days averages [] compiled.normalized.exit 4).1 ≡ true)
unfolding max_node_lag_in lags_of
compile-ready_example =
    compile-ready whole five_days averages rising compiled 4 refl compiles computes (refl, tt) refl
      refl (omega arith) (omega arith)

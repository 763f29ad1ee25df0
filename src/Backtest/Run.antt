-- ===== src/Backtest/Run.antt =====
-- Run of service/backtest/engine.go: what it refuses to simulate, and its result.
use zhigu.Base.{
  Bool, true, false, not, ◌&&◌, ◌||◌, Option, none, some, List, [], ◌∷◌, ◌++◌, length, String, ◌<>◌,
  str_eq, ◌==◌, if◌then◌else◌, trim_space, Result, ok, err, Decimals, le, or_zero,
}
use zhigu.Indicators.Averages.{Bar}
use zhigu.Indicators.Engine.{Series, compute_many}
use zhigu.Backtest.Ledger.{CorporateAction, must_dec}
use zhigu.Backtest.Orders.{Order, Fill}
use zhigu.Backtest.Actions.{Equity, action_level}
use zhigu.Backtest.Metrics.{Metrics, metrics}
use zhigu.Backtest.Days.{
  Refusal, instrument_unsupported, strategy_unsupported, insufficient_history, rule_data_incomplete,
  invalid_param, strategy_invalid, Signal, or_default, Input, RunState, Setting, is_causal,
  run_days,
}

pub record Report : Type 0 where
  pub orders : List Order
  pub fills : List Fill
  pub equity : List Equity
  pub signals : List Signal
  pub metrics : Metrics
  pub assumptions : List String
  pub evidence_level : String

pub data RunResult : Type 0 where
  failed : Refusal → RunResult
  succeeded : Report → RunResult

-- The first check that fails refuses the simulation.
abbrev pub refuse : List (Bool × Refusal) → RunResult → RunResult
refuse [] rest = rest
refuse ((test, why) ∷ checks) rest =
    let passed = refuse checks rest in if test then failed why else passed

module _ (d : Decimals) where
  abbrev pub basis_note : Input d → List String
  basis_note inp =
      if is_causal d inp
      then (if length inp.actions == 0
          then "区间内无公司行动记录，causal_qfq 与 raw 一致" ∷ []
          else "信号按 causal_qfq：每个信号日只用当时已可知的公司行动调整历史窗口；成交仍用原始开盘价" ∷ [])
      else []

  abbrev pub slippage_of : Input d → String
  slippage_of inp = or_default "10" inp.config.slippage_bps

  abbrev pub participation_of : Input d → String
  participation_of inp = or_default "0.01" inp.config.participation_cap

  abbrev pub report : Input d → RunState d → Report
  report inp s = record {
    orders = s.orders;
    fills = s.fills;
    equity = s.equity;
    signals = s.sigs;
    metrics = metrics d s.equity s.fills s.orders inp.config;
    assumptions =
        inp.compiled.assumptions
        ++ ("历史模拟，不是实盘成交"
            ∷ ("滑点 " <> slippage_of inp <> " bps，数量上限为前一日成交量的 " <> participation_of inp)
            ∷ ("费用来源 " <> inp.rule.source <> " / " <> inp.rule.version)
            ∷ basis_note inp);
    evidence_level = action_level inp.actions;
  }

  abbrev pub ended : Input d → Result (RunState d) → RunResult
  ended inp (err _) = failed strategy_invalid
  ended inp (ok s) = succeeded (report inp s)

  abbrev pub initial : d.Decimal → RunState d
  initial cash = record {
    orders = [];
    fills = [];
    equity = [];
    sigs = [];
    holdings = record { cash = cash; lots = []; recv = d.zero };
    pend = none;
    peak = cash;
    sold_today = false;
  }

  abbrev pub setting : Input d → List (Bar d) → List (Series d) → Setting d
  setting inp bars series = record {
    input = inp;
    bars = bars;
    series = series;
    tick = must_dec d inp.rule.tick;
    slip = d.div (must_dec d (slippage_of inp)) (d.of_nat 10000);
    part = must_dec d (participation_of inp);
  }

  abbrev pub is_sane : Bar d → Bool
  is_sane b = le d b.low b.high && not (d.lt b.volume d.zero)

  abbrev pub are_sane : List (Bar d) → Bool
  are_sane [] = true
  are_sane (b ∷ bars) = is_sane b && are_sane bars

  abbrev pub is_dated : CorporateAction → Bool
  is_dated a = elim a.available_at [ none ↦ false | some at ↦ not (str_eq at "") ]

  abbrev pub are_dated : List CorporateAction → Bool
  are_dated [] = true
  are_dated (a ∷ actions) = is_dated a && are_dated actions

  abbrev pub signal_bars : Input d → List (Bar d)
  signal_bars inp = if length inp.signal == 0 then inp.raw else inp.signal

  abbrev pub is_positive : Option d.Decimal → Bool
  is_positive none = false
  is_positive (some cash) = d.lt d.zero cash

  abbrev pub rule_checks : Input d → List (Bool × Refusal)
  rule_checks inp =
      (inp.rule.lot_size == 0, rule_data_incomplete)
      ∷ (
        str_eq (trim_space inp.rule.tick) "" || str_eq (trim_space inp.rule.commission_rate) "",
        rule_data_incomplete,
      )
      ∷ []

  abbrev pub simulate_with : Input d → List (Bar d) → d.Decimal → List (Series d) → RunResult
  simulate_with inp bars cash series =
      refuse (rule_checks inp)
        (ended inp (run_days d (setting inp bars series) (length inp.raw) 0 (initial cash)))

  abbrev pub simulate : Input d → List (Bar d) → d.Decimal → RunResult
  simulate inp bars cash = elim (compute_many d bars inp.doc.indicators) [
    | err _ ↦ failed strategy_invalid
    | ok series ↦ simulate_with inp bars cash series
  ]

  abbrev pub checks_of : Input d → List (Bool × Refusal)
  checks_of inp =
      (
        not (str_eq inp.asset_type "") && not (str_eq inp.asset_type "stock"),
        instrument_unsupported,
      )
      ∷ (not (str_eq inp.doc.signal_period "1d"), strategy_unsupported)
      ∷ (length inp.raw == 0, insufficient_history)
      ∷ (not (are_sane inp.raw), insufficient_history)
      ∷ (not (length (signal_bars inp) == length inp.raw), insufficient_history)
      ∷ (is_causal d inp && not (are_dated inp.actions), rule_data_incomplete)
      ∷ (not (is_positive (d.parse inp.config.initial_cash)), invalid_param)
      ∷ []

  unfoldable pub run : Input d → RunResult
  run inp =
      refuse (checks_of inp)
        (simulate inp (signal_bars inp) (or_zero d (d.parse inp.config.initial_cash)))

-- ===== src/Backtest/Days.antt =====
-- The loop over the days in Run of service/backtest/engine.go: one order at most is pending, and it is executed at the open of
-- a later day than the one whose close asked for it.
use zhigu.Base.{
  ℕ, zero, suc, Bool, true, false, not, ◌&&◌, ◌||◌, Option, none, some, List, [], ◌∷◌, ◌++◌, take,
  length, String, ◌<>◌, str_eq, ltb, if◌then◌else◌, Result, ok, err, Decimals,
}
use zhigu.Indicators.Averages.{Bar, bar}
use zhigu.Indicators.Engine.{Series, compute_many}
use zhigu.Strategy.Document.{Document, Compiled}
use zhigu.Strategy.Eval.{ContinuityCheck, checks_under, eval_cond}
use zhigu.Backtest.Ledger.{TradingRule, CorporateAction, buy, sell, sum_qty, must_dec, date_lt}
use zhigu.Backtest.Orders.{Order, Fill, Pending, Execution, Session, execute}
use zhigu.Backtest.Actions.{
  Holdings, apply_actions, hit_risk, Equity, equity_row, worth, higher, causal_qfq,
}

-- The parts of Config that Run reads.
pub record Config : Type 0 where
  pub start : String
  pub end_ : String
  pub initial_cash : String
  pub slippage_bps : String
  pub participation_cap : String

-- The codes of a Result that failed.
pub data Refusal : Type 0 where
  instrument_unsupported strategy_unsupported insufficient_history rule_data_incomplete : Refusal
  invalid_param strategy_invalid : Refusal

pub record Signal : Type 0 where
  pub date : String
  pub kind : String

abbrev pub or_default : String → String → String
or_default fallback s = if str_eq s "" then fallback else s

module _ (d : Decimals) where
  -- `continuity` is Compiled.Continuity, `suspended` the map of the days.
  pub record Input : Type 0 where
    pub doc : Document
    pub compiled : Compiled
    pub continuity : List ContinuityCheck
    pub raw : List (Bar d)
    pub signal : List (Bar d)
    pub asset_type : String
    pub rule : TradingRule
    pub actions : List CorporateAction
    pub config : Config
    pub suspended : String → Bool

  -- The variables of the loop.
  pub record RunState : Type 0 where
    pub orders : List Order
    pub fills : List Fill
    pub equity : List Equity
    pub sigs : List Signal
    pub holdings : Holdings d
    pub pend : Option (Pending d)
    pub peak : d.Decimal
    pub sold_today : Bool

  -- What the loop reads but does not set.
  pub record Setting : Type 0 where
    pub input : Input
    pub bars : List (Bar d)
    pub series : List (Series d)
    pub tick : d.Decimal
    pub slip : d.Decimal
    pub part : d.Decimal

  abbrev pub session : Setting → ℕ → Session d
  session g i = record {
    all = g.input.raw;
    i = i;
    rule = g.input.rule;
    tick = g.tick;
    slip = g.slip;
    part = g.part;
  }

  abbrev pub note_equity : Bar d → RunState → RunState
  note_equity day s =
      let peak = higher d s.peak (worth d s.holdings day.close) in
      record s {
        equity = s.equity ++ equity_row d day.time s.holdings day.close peak ∷ [];
        peak = peak;
      }

  -- An exit that was rejected stays pending.
  abbrev pub settled : Pending d → Execution d → RunState → Option Fill → RunState
  settled p done s (some f) = record s {
    orders = s.orders ++ done.order ∷ [];
    fills = s.fills ++ f ∷ [];
    holdings = record s.holdings { cash = done.cash; lots = done.lots };
    sold_today = p.exit || s.sold_today;
    pend = none;
  }
  settled p done s none = record s {
    orders = s.orders ++ done.order ∷ [];
    pend = if p.exit then some (record p { reason = done.order.reason }) else none;
  }

  abbrev pub executed : Pending d → Execution d → RunState → RunState
  executed p done s = settled p done s done.fill

  abbrev pub execute_if : Setting → ℕ → RunState → Option (Pending d) → RunState
  execute_if g i s none = s
  execute_if g i s (some p) =
      executed p (execute d p (session g i) s.holdings.cash s.holdings.lots) s

  unfoldable pub execute_pending : Setting → ℕ → RunState → RunState
  execute_pending g i s = execute_if g i s s.pend

  abbrev pub exit_order : String → String → Pending d
  exit_order prefix date = record {
    side = sell;
    signal = prefix <> date;
    reason = "";
    target_frac = d.zero;
    exit = true;
    created = date;
  }

  abbrev pub entry_order : Setting → String → Pending d
  entry_order g date = record {
    side = buy;
    signal = "entry_" <> date;
    reason = "";
    target_frac = must_dec d g.input.doc.position_value;
    exit = false;
    created = date;
  }

  abbrev pub signalled : String → String → Pending d → RunState → RunState
  signalled kind date p s = record s {
    sigs = s.sigs ++ record { date = date; kind = kind } ∷ [];
    pend = some p;
  }

  abbrev pub met : Bool × Bool → Bool
  met (holds, ready) = ready && holds

  -- The conditions at the day, over its bars and series.
  abbrev pub exit_met : Setting → ℕ → List (Bar d) → List (Series d) → Bool
  exit_met g i bars series =
      met (eval_cond d bars series (checks_under "exit" g.input.continuity) g.input.doc.exit i)

  abbrev pub entry_met : Setting → ℕ → List (Bar d) → List (Series d) → Bool
  entry_met g i bars series =
      met (eval_cond d bars series (checks_under "entry" g.input.continuity) g.input.doc.entry i)

  abbrev pub try_entry : Setting → ℕ → List (Bar d) → List (Series d) → RunState → RunState
  try_entry g i bars series s =
      let date = (bar d g.input.raw i).time in
      if d.eq (sum_qty d s.holdings.lots) d.zero && not s.sold_today && entry_met g i bars series
      then signalled "entry" date (entry_order g date) s
      else s

  unfoldable pub decide : Setting → ℕ → List (Bar d) → List (Series d) → RunState → RunState
  decide g i bars series s =
      let day = bar d g.input.raw i in
      let held = d.lt d.zero (sum_qty d s.holdings.lots) in
      if held && hit_risk d g.input.doc s.holdings.lots day s.holdings.recv
      then signalled "risk_exit" day.time (exit_order "risk_" day.time) s
      else if held && exit_met g i bars series
      then signalled "exit" day.time (exit_order "exit_" day.time) s
      else try_entry g i bars series s

  abbrev pub is_causal : Input → Bool
  is_causal inp = str_eq inp.doc.price_basis "causal_qfq"

  -- The indicators of the day: under causal_qfq those of the bars up to the day as adjusted then.
  unfoldable pub evaluate : Setting → ℕ → RunState → Result RunState
  evaluate g i s =
      let inp = g.input in
      let day = bar d inp.raw i in
      let bars = causal_qfq d (take (suc i) inp.raw) inp.actions day.time in
      if is_causal inp && ltb 0 (length inp.actions)
      then elim (compute_many d bars inp.doc.indicators) [
        | err e ↦ err e
        | ok series ↦ ok (decide g i bars series s)
      ]
      else ok (decide g i g.bars g.series s)

  abbrev pub with_actions : Setting → ℕ → RunState → RunState
  with_actions g i s = record s {
    holdings = apply_actions d (bar d g.input.raw i).time g.input.actions s.holdings;
  }

  -- The body of the loop for a day in the range.
  unfoldable pub run_day : Setting → ℕ → RunState → Result RunState
  run_day g i s0 =
      let day = bar d g.input.raw i in
      let s = record s0 { sold_today = false } in
      let noted = note_equity day (execute_pending g i (with_actions g i s)) in
      if g.input.suspended day.time
      then ok (note_equity day s)
      else if ltb i g.input.compiled.warmup_bars
      then ok noted
      else evaluate g i noted

  abbrev pub is_before : Config → String → Bool
  is_before cfg time = not (str_eq cfg.start "") && date_lt time cfg.start

  abbrev pub is_after : Config → String → Bool
  is_after cfg time = not (str_eq cfg.end_ "") && date_lt cfg.end_ time

  -- The loop with `rounds` bars left from bar `i`.
  unfoldable pub run_days : Setting → ℕ → ℕ → RunState → Result RunState
  run_days g zero i s = ok s
  run_days g (suc rounds) i s =
      let time = (bar d g.input.raw i).time in
      elim (is_before g.input.config time) [
        | true ↦ run_days g rounds (suc i) (record s { sold_today = false })
        | false ↦ elim (is_after g.input.config time) [
          | true ↦ ok s
          | false ↦ elim (run_day g i s) [ err e ↦ err e | ok s' ↦ run_days g rounds (suc i) s' ]
        ]
      ]

-- ===== src/Backtest/Actions.antt =====
-- service/backtest/engine.go: corporate actions, the risk of a position and the notes of its equity;
-- causal.go: the bars adjusted by what was known on a day.
use zhigu.Base.{
  Bool, false, not, ◌&&◌, ◌||◌, Option, none, some, List, [], ◌∷◌, map, String, str_eq,
  if◌then◌else◌, trim_space, Decimals, le, neg,
}
use zhigu.Indicators.Averages.{Bar}
use zhigu.Strategy.Document.{Document}
use zhigu.Backtest.Ledger.{CorporateAction, Lot, sum_qty, must_dec, date_le, date_lt}

-- The day of an action that may have none.
abbrev pub is_day : String → Option String → Bool
is_day date none = false
is_day date (some day) = str_eq day date

abbrev pub is_verified : CorporateAction → Bool
is_verified a = str_eq a.evidence_level "point_in_time_verified"

unfoldable pub level_from : String → List CorporateAction → String
level_from level [] = level
level_from level (a ∷ actions) =
    let rest = level_from level actions in if is_verified a then rest else "historical_revised"

unfoldable pub action_level : List CorporateAction → String
action_level [] = "no_actions"
action_level actions = level_from "point_in_time_verified" actions

pub record Equity : Type 0 where
  pub date : String
  pub cash : String
  pub qty : String
  pub market_value : String
  pub equity : String
  pub drawdown : String

module _ (d : Decimals) where
  -- Cash, lots, and what has been declared but not yet paid.
  pub record Holdings : Type 0 where
    pub cash : d.Decimal
    pub lots : List (Lot d)
    pub recv : d.Decimal

  abbrev pub split_lot : d.Decimal → Lot d → Lot d
  split_lot r l = record l { qty = d.mul l.qty r }

  abbrev pub split_lots : d.Decimal → List (Lot d) → List (Lot d)
  split_lots r lots = if d.lt d.zero r then map (split_lot r) lots else lots

  abbrev pub record_dividend : String → d.Decimal → CorporateAction → Holdings → Holdings
  record_dividend date qty a h =
      if is_day date a.record_date && d.lt d.zero qty
      then record h { recv = d.add h.recv (d.mul qty (must_dec d a.cash_amount)) }
      else h

  abbrev pub pay_dividend : String → CorporateAction → Holdings → Holdings
  pay_dividend date a h =
      if is_day date a.pay_date && d.lt d.zero h.recv
      then record h { cash = d.add h.cash h.recv; recv = d.zero }
      else h

  abbrev pub apply_action : String → d.Decimal → CorporateAction → Holdings → Holdings
  apply_action date qty a h =
      if str_eq a.kind "split"
      then (if str_eq a.effective_at date && d.lt d.zero qty
          then record h { lots = split_lots (must_dec d a.ratio) h.lots }
          else h)
      else if str_eq a.kind "cash_dividend"
      then pay_dividend date a (record_dividend date qty a h)
      else h

  -- The shares are those from before the first action.
  unfoldable pub apply_each : String → d.Decimal → List CorporateAction → Holdings → Holdings
  apply_each date qty [] h = h
  apply_each date qty (a ∷ actions) h = apply_each date qty actions (apply_action date qty a h)

  unfoldable pub apply_actions : String → List CorporateAction → Holdings → Holdings
  apply_actions date actions h = apply_each date (sum_qty d h.lots) actions h

  unfoldable pub cost_from : d.Decimal → List (Lot d) → d.Decimal
  cost_from s [] = s
  cost_from s (l ∷ ls) = cost_from (d.add s l.cost) ls

  -- A threshold that is set.
  abbrev pub threshold : Option String → Option d.Decimal
  threshold none = none
  threshold (some text) = if str_eq (trim_space text) "" then none else some (must_dec d text)

  abbrev pub stops : d.Decimal → Option d.Decimal → Bool
  stops pnl none = false
  stops pnl (some th) = le d pnl (neg d th)

  abbrev pub takes : d.Decimal → Option d.Decimal → Bool
  takes pnl none = false
  takes pnl (some th) = le d th pnl

  unfoldable pub hit_risk : Document → List (Lot d) → Bar d → d.Decimal → Bool
  hit_risk doc lots day recv =
      let qty = sum_qty d lots in
      let cost = cost_from d.zero lots in
      let gain = d.sub (d.add (d.add (d.mul qty day.close) d.zero) recv) cost in
      not (le d qty d.zero)
      && not (le d cost d.zero)
      && (stops (d.div gain cost) (threshold doc.stop_loss_pct)
          || takes (d.div gain cost) (threshold doc.take_profit_pct))

  abbrev pub worth : Holdings → d.Decimal → d.Decimal
  worth h close = d.add (d.add h.cash (d.mul (sum_qty d h.lots) close)) h.recv

  abbrev pub higher : d.Decimal → d.Decimal → d.Decimal
  higher peak eq = if d.lt peak eq then eq else peak

  -- The row of a day under the peak that counts the day.
  abbrev pub equity_row : String → Holdings → d.Decimal → d.Decimal → Equity
  equity_row date h close peak = record {
    date = date;
    cash = d.show h.cash;
    qty = d.show (sum_qty d h.lots);
    market_value = d.show (d.mul (sum_qty d h.lots) close);
    equity = d.show (worth h close);
    drawdown =
        d.show (if d.lt d.zero peak then d.div (d.sub peak (worth h close)) peak else d.zero);
  }

  -- causal.go.
  unfoldable pub close_before_from : d.Decimal → List (Bar d) → String → d.Decimal
  close_before_from last [] day = last
  close_before_from last (b ∷ bars) day =
      close_before_from (if date_lt b.time day then b.close else last) bars day

  abbrev pub close_before : List (Bar d) → String → d.Decimal
  close_before = close_before_from d.zero

  abbrev pub is_known : String → Option String → Bool
  is_known as_of none = false
  is_known as_of (some at) = not (str_eq at "") && date_le at as_of

  abbrev pub counts : String → Bar d → CorporateAction → Bool
  counts as_of b a =
      is_known as_of a.available_at
      && not (str_eq a.effective_at "")
      && date_le a.effective_at as_of
      && date_lt b.time a.effective_at

  -- The factors of prices and of volumes.
  abbrev pub adjusted :
      List (Bar d) → CorporateAction → d.Decimal × d.Decimal → d.Decimal × d.Decimal
  adjusted raw a (pf, vf) =
      let r = must_dec d a.ratio in
      let cash = must_dec d a.cash_amount in
      let prev = close_before raw a.effective_at in
      if str_eq a.kind "split"
      then (if d.lt d.zero r then (d.div pf r, d.mul vf r) else (pf, vf))
      else if str_eq a.kind "cash_dividend"
      then (if d.lt cash prev && d.lt d.zero prev
          then (d.mul pf (d.div (d.sub prev cash) prev), vf)
          else (pf, vf))
      else (pf, vf)

  unfoldable pub factors :
      List (Bar d)
      → String
      → Bar d
      → List CorporateAction
      → d.Decimal × d.Decimal
      → d.Decimal × d.Decimal
  factors raw as_of b [] f = f
  factors raw as_of b (a ∷ actions) f =
      factors raw as_of b actions (if counts as_of b a then adjusted raw a f else f)

  abbrev pub scaled : Bar d → d.Decimal × d.Decimal → Bar d
  scaled b (pf, vf) = record b {
    open_ = d.mul b.open_ pf;
    high = d.mul b.high pf;
    low = d.mul b.low pf;
    close = d.mul b.close pf;
    volume = d.mul b.volume vf;
  }

  unfoldable pub causal_qfq : List (Bar d) → List CorporateAction → String → List (Bar d)
  causal_qfq raw actions as_of =
      map (λ b. scaled b (factors raw as_of b actions (d.of_nat 1, d.of_nat 1))) raw

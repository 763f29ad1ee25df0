-- ===== src/Backtest/Ledger.antt =====
-- service/backtest/engine.go: the lots of a position, the fees and the prices of an order. The rules
-- and the corporate actions are those of service/market/types.go.
use Prim.Native.String.{compare}
use text.Mathlib.Text.{is_le, is_lt}
use zhigu.Base.{
  ℕ, ◌-◌, Bool, false, not, ◌&&◌, Option, List, [], ◌∷◌, String, str_eq, leb, ◌==◌, if◌then◌else◌,
  trim_space, ℤ, pos, negsuc, Decimals, le, or_zero,
}
use zhigu.Indicators.Averages.{Bar, bar}

pub record TradingRule : Type 0 where
  pub lot_size : ℕ
  pub tick : String
  pub limit_pct : String
  pub t_plus : ℤ
  pub commission_rate : String
  pub commission_min : String
  pub stamp_buy : String
  pub stamp_sell : String
  pub transfer_rate : String
  pub source : String
  pub version : String

pub record CorporateAction : Type 0 where
  pub kind : String
  pub effective_at : String
  pub available_at : Option String
  pub record_date : Option String
  pub pay_date : Option String
  pub cash_amount : String
  pub ratio : String
  pub evidence_level : String

pub data Side : Type 0 where
  buy sell : Side

abbrev pub side_name : Side → String
side_name buy = "buy"
side_name sell = "sell"

-- The comparison of dates as texts.
abbrev pub date_le : String → String → Bool
date_le s t = is_le (compare s t)

abbrev pub date_lt : String → String → Bool
date_lt s t = is_lt (compare s t)

pub record Fee : Type 0 where
  pub name : String
  pub amount : String

module _ (d : Decimals) where
  -- MustDec.
  abbrev pub must_dec : String → d.Decimal
  must_dec s = if str_eq s "" then d.zero else or_zero d (d.parse s)

  pub record Lot : Type 0 where
    pub qty : d.Decimal
    pub cost : d.Decimal
    pub available : String
    pub buy_date : String

  unfoldable pub sum_from : d.Decimal → List Lot → d.Decimal
  sum_from s [] = s
  sum_from s (l ∷ ls) = sum_from (d.add s l.qty) ls

  abbrev pub sum_qty : List Lot → d.Decimal
  sum_qty = sum_from d.zero

  unfoldable pub sellable_from : String → d.Decimal → List Lot → d.Decimal
  sellable_from today s [] = s
  sellable_from today s (l ∷ ls) =
      sellable_from today (if date_le l.available today then d.add s l.qty else s) ls

  abbrev pub is_zero : ℤ → Bool
  is_zero (pos n) = n == 0
  is_zero (negsuc n) = false

  -- Under T+0 all the lots; otherwise those that are available on the day.
  abbrev pub sellable : TradingRule → String → List Lot → d.Decimal
  sellable rule today lots =
      if is_zero rule.t_plus then sum_qty lots else sellable_from today d.zero lots

  -- `left` is what is still to be taken from the lots.
  unfoldable pub reduce_lots : d.Decimal → List Lot → List Lot
  reduce_lots left [] = []
  reduce_lots left (l ∷ ls) =
      let kept = l ∷ reduce_lots left ls in
      let rest = reduce_lots (d.sub left l.qty) ls in
      let split = record l { qty = d.sub l.qty left } ∷ reduce_lots d.zero ls in
      if le d left d.zero then kept else if le d l.qty left then rest else split

  unfoldable pub floor_lot : d.Decimal → ℕ → d.Decimal
  floor_lot qty lot =
      if leb lot 0 then d.zero else d.mul (d.floor (d.div qty (d.of_nat lot))) (d.of_nat lot)

  abbrev pub round_tick : d.Decimal → d.Decimal → Side → d.Decimal
  round_tick px tick side = if le d tick d.zero then px else elim side [
    | buy ↦ d.mul (d.ceil (d.div px tick)) tick
    | sell ↦ d.mul (d.floor (d.div px tick)) tick
  ]

  abbrev pub at_limit : Bar d → d.Decimal → d.Decimal → Side → Bool
  at_limit day prev lim buy =
      le d (d.mul prev (d.add (d.of_nat 1) lim)) day.open_ && d.eq day.high day.open_
  at_limit day prev lim sell =
      le d day.open_ (d.mul prev (d.sub (d.of_nat 1) lim)) && d.eq day.low day.open_

  -- The day opened at its limit and did not move.
  unfoldable pub limit_blocked : Bar d → List (Bar d) → ℕ → TradingRule → Side → Bool
  limit_blocked day all i rule side =
      let prev = (bar d all (i - 1)).close in
      not (str_eq (trim_space rule.limit_pct) "")
      && not (str_eq rule.limit_pct "0")
      && not (i == 0)
      && not (le d prev d.zero)
      && at_limit day prev (must_dec rule.limit_pct) side

  abbrev pub stamp_rate : TradingRule → Side → d.Decimal
  stamp_rate rule buy = must_dec rule.stamp_buy
  stamp_rate rule sell = must_dec rule.stamp_sell

  abbrev pub commission : TradingRule → d.Decimal → d.Decimal
  commission rule notional =
      let comm = d.mul notional (must_dec rule.commission_rate) in
      let min = must_dec rule.commission_min in if d.lt comm min then min else comm

  unfoldable pub fee_total : TradingRule → Side → d.Decimal → d.Decimal
  fee_total rule side notional =
      d.add (d.add (commission rule notional) (d.mul notional (stamp_rate rule side)))
        (d.mul notional (must_dec rule.transfer_rate))

  abbrev pub fee : String → d.Decimal → Fee
  fee name amount = record { name = name; amount = d.show amount }

  unfoldable pub fee_list : TradingRule → Side → d.Decimal → List Fee
  fee_list rule side notional =
      fee "commission" (commission rule notional)
      ∷ fee "stamp" (d.mul notional (stamp_rate rule side))
      ∷ fee "transfer" (d.mul notional (must_dec rule.transfer_rate))
      ∷ []

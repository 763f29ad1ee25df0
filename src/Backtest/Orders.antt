-- ===== src/Backtest/Orders.antt =====
-- service/backtest/engine.go: the execution of a pending order at the open of a day.
use zhigu.Base.{
  ℕ, ◌+◌, ◌-◌, Bool, not, ◌&&◌, Option, none, some, List, [], ◌∷◌, ◌++◌, String, ◌<>◌, length, ltb,
  ◌==◌, if◌then◌else◌, pos, negsuc, Decimals, le, neg,
}
use zhigu.Indicators.Averages.{Bar, bar}
use zhigu.Backtest.Ledger.{
  TradingRule, Side, buy, sell, side_name, Fee, must_dec, Lot, sellable, reduce_lots, floor_lot,
  round_tick, limit_blocked, fee_total, fee_list,
}

pub record Order : Type 0 where
  pub id : String
  pub signal_id : String
  pub side : Side
  pub status : String
  pub qty : String
  pub submitted : String
  pub fill_date : String
  pub reason : String
  pub price : String
  pub fees : List Fee
  pub cash_delta : String

pub record Fill : Type 0 where
  pub order_id : String
  pub date : String
  pub qty : String
  pub price : String
  pub cash_delta : String
  pub fees : List Fee

module _ (d : Decimals) where
  pub record Pending : Type 0 where
    pub side : Side
    pub signal : String
    pub reason : String
    pub target_frac : d.Decimal
    pub exit : Bool
    pub created : String

  -- What execute returns: no fill where the order was rejected.
  pub record Execution : Type 0 where
    pub order : Order
    pub fill : Option Fill
    pub cash : d.Decimal
    pub lots : List (Lot d)

  -- The market of the day: all the bars, the index of the day, the rule and the costs.
  pub record Session : Type 0 where
    pub all : List (Bar d)
    pub i : ℕ
    pub rule : TradingRule
    pub tick : d.Decimal
    pub slip : d.Decimal
    pub part : d.Decimal

  abbrev pub today : Session → Bar d
  today s = bar d s.all s.i

  abbrev pub new_order : Pending → Session → Order
  new_order p s = record {
    id = "ord_" <> (today s).time <> "_" <> side_name p.side;
    signal_id = p.signal;
    side = p.side;
    status = "rejected";
    qty = "0";
    submitted = (today s).time;
    fill_date = "";
    reason = "";
    price = "";
    fees = [];
    cash_delta = "";
  }

  abbrev pub reject : String → Pending → Session → d.Decimal → List (Lot d) → Execution
  reject reason p s cash lots = record {
    order = record (new_order p s) { reason = reason };
    fill = none;
    cash = cash;
    lots = lots;
  }

  -- The order and its fill at a price, with the change of the cash.
  abbrev pub filled_order : Pending → Session → d.Decimal → d.Decimal → List Fee → d.Decimal → Order
  filled_order p s qty px fees delta = record (new_order p s) {
    status = "filled";
    qty = d.show qty;
    price = d.show px;
    fill_date = (today s).time;
    fees = fees;
    cash_delta = d.show delta;
  }

  abbrev pub fill_of : Order → Fill
  fill_of o = record {
    order_id = o.id;
    date = o.fill_date;
    qty = o.qty;
    price = o.price;
    cash_delta = o.cash_delta;
    fees = o.fees;
  }

  abbrev pub prev_volume : Session → d.Decimal
  prev_volume s = if ltb 0 s.i then (bar d s.all (s.i - 1)).volume else d.zero

  abbrev pub cap : Session → d.Decimal
  cap s = d.mul (prev_volume s) s.part

  abbrev pub today_cap : Session → d.Decimal
  today_cap s = d.mul (today s).volume s.part

  -- At most the shares of the volumes; the cap of the day before counts unless it is 0.
  unfoldable pub capped : Session → d.Decimal → d.Decimal
  capped s qty =
      let first_cap =
        if not (d.eq (cap s) d.zero) && d.lt (cap s) qty
        then floor_lot d (cap s) s.rule.lot_size
        else qty in
      if d.lt (today_cap s) first_cap then floor_lot d (today_cap s) s.rule.lot_size else first_cap

  abbrev pub buy_price : Session → d.Decimal
  buy_price s = round_tick d (d.mul (today s).open_ (d.add (d.of_nat 1) s.slip)) s.tick buy

  abbrev pub sell_price : Session → d.Decimal
  sell_price s = round_tick d (d.mul (today s).open_ (d.sub (d.of_nat 1) s.slip)) s.tick sell

  abbrev pub fee_rate : TradingRule → d.Decimal
  fee_rate rule =
      d.add (d.add (must_dec d rule.commission_rate) (must_dec d rule.stamp_buy))
        (must_dec d rule.transfer_rate)

  -- The price of a share with its rates.
  abbrev pub denom : Session → d.Decimal
  denom s = d.mul (buy_price s) (d.add (d.of_nat 1) (fee_rate s.rule))

  abbrev pub buy_qty : Pending → Session → d.Decimal → d.Decimal
  buy_qty p s cash =
      capped s (floor_lot d (d.div (d.mul cash p.target_frac) (denom s)) s.rule.lot_size)

  -- The date from which the lot may be sold; past the last bar no date.
  abbrev pub available_from : Session → String
  available_from s = elim s.rule.t_plus [
    | negsuc _ ↦ (today s).time
    | pos n ↦
        if n == 0
        then (today s).time
        else if ltb (s.i + n) (length s.all)
        then (bar d s.all (s.i + n)).time
        else (today s).time <> "+t1"
  ]

  abbrev pub need : Session → d.Decimal → d.Decimal
  need s qty =
      let notional = d.mul (buy_price s) qty in d.add notional (fee_total d s.rule buy notional)

  abbrev pub proceeds : Session → d.Decimal → d.Decimal
  proceeds s qty =
      let notional = d.mul (sell_price s) qty in d.sub notional (fee_total d s.rule sell notional)

  abbrev pub bought : Pending → Session → d.Decimal → List (Lot d) → d.Decimal → Execution
  bought p s cash lots qty =
      let fees = fee_list d s.rule buy (d.mul (buy_price s) qty) in
      let o = filled_order p s qty (buy_price s) fees (neg d (need s qty)) in
      let lot : Lot d = record {
        qty = qty;
        cost = need s qty;
        available = available_from s;
        buy_date = (today s).time;
      } in
      record {
        order = o;
        fill = some (fill_of o);
        cash = d.sub cash (need s qty);
        lots = lots ++ lot ∷ [];
      }

  unfoldable pub execute_buy : Pending → Session → d.Decimal → List (Lot d) → Execution
  execute_buy p s cash lots =
      let qty = buy_qty p s cash in
      if limit_blocked d (today s) s.all s.i s.rule buy
      then reject "LIMIT_LOCKED" p s cash lots
      else if le d (denom s) d.zero
      then reject "BAD_PRICE" p s cash lots
      else if d.lt qty (d.of_nat s.rule.lot_size)
      then reject "INSUFFICIENT_CASH_OR_LOT" p s cash lots
      else if d.lt cash (need s qty)
      then reject "INSUFFICIENT_CASH" p s cash lots
      else bought p s cash lots qty

  abbrev pub sell_qty : Session → List (Lot d) → d.Decimal
  sell_qty s lots = floor_lot d (capped s (sellable d s.rule (today s).time lots)) s.rule.lot_size

  abbrev pub sold : Pending → Session → d.Decimal → List (Lot d) → d.Decimal → Execution
  sold p s cash lots qty =
      let fees = fee_list d s.rule sell (d.mul (sell_price s) qty) in
      let o = filled_order p s qty (sell_price s) fees (proceeds s qty) in
      record {
        order = o;
        fill = some (fill_of o);
        cash = d.add cash (proceeds s qty);
        lots = reduce_lots d qty lots;
      }

  unfoldable pub execute_sell : Pending → Session → d.Decimal → List (Lot d) → Execution
  execute_sell p s cash lots =
      let qty = sell_qty s lots in
      if limit_blocked d (today s) s.all s.i s.rule sell
      then reject "LIMIT_LOCKED" p s cash lots
      else if le d qty d.zero
      then reject "NOT_SELLABLE" p s cash lots
      else sold p s cash lots qty

  abbrev pub execute_side : Side → Pending → Session → d.Decimal → List (Lot d) → Execution
  execute_side buy = execute_buy
  execute_side sell = execute_sell

  unfoldable pub execute : Pending → Session → d.Decimal → List (Lot d) → Execution
  execute p s cash lots =
      if le d (today s).open_ d.zero
      then reject "NO_OPEN" p s cash lots
      else if le d (cap s) d.zero && d.eq (prev_volume s) d.zero
      then reject "NO_VOLUME" p s cash lots
      else execute_side p.side p s cash lots

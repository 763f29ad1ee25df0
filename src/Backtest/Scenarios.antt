-- ===== src/Backtest/Scenarios.antt =====
-- Tests of the orders of service/backtest/engine.go with whole numbers, and the theorems at them.
use zhigu.Base.{
  ℤ, ltb_ℤ, negsuc, ◌*ℤ◌, ℕ, ◌≡◌, refl, true, false, List, [], ◌∷◌, String, arith, pos, whole, ◌+ℤ◌,
  ◌-ℤ◌, ◌*ℤ◌, trim_space, div_ℤ,
}
use zhigu.Indicators.Averages.{Bar}
use zhigu.Backtest.Laws.{Lawful}
use zhigu.Backtest.Ledger.{
  Lot, TradingRule, Side, buy, sell, sum_from, sellable_from, reduce_lots, floor_lot, limit_blocked,
  fee_total,
}
use zhigu.Backtest.Orders.{Session, Pending, capped, execute, execute_buy, execute_sell}
use zhigu.Backtest.Accounts.{Trade, account, account_after, execute-Trade}

-- The product of numbers that are at least 0.
mul_least : (m n : ℕ) → ltb_ℤ (pos m *ℤ pos n) (pos 0) ≡ false
unfolding ◌*ℤ◌
mul_least m n = ground arith

mul_whole :
    (a b : ℤ) → ltb_ℤ a (pos 0) ≡ false → ltb_ℤ (pos 0) b ≡ true → ltb_ℤ (a *ℤ b) (pos 0) ≡ false
mul_whole (pos m) (pos n) h k = mul_least m n
mul_whole (negsuc m) b h k = absurd (ground arith)
mul_whole (pos m) (negsuc n) h k = absurd (ground arith)

pub whole-Lawful : Lawful whole
unfolding ◌+ℤ◌ ◌-ℤ◌
whole-Lawful = record {
  add_assoc = λ a b c. ground arith;
  add_comm = λ a b. ground arith;
  add_zero = λ a. ground arith;
  sub-add = λ a b. ground arith;
  lt_irrefl = λ a. ground arith;
  lt_trans = λ a b c h k. ground arith;
  lt_total = λ a b h k. ground arith;
  lt-add = λ a b c. ground arith;
  eq-true = λ a b h. ground arith;
  mul_least = mul_whole;
  of_nat_least = λ n. ground arith;
}

abbrev pub stock_rule : TradingRule
stock_rule = record {
  lot_size = 10;
  tick = "1";
  limit_pct = "";
  t_plus = pos 1;
  commission_rate = "0";
  commission_min = "5";
  stamp_buy = "0";
  stamp_sell = "0";
  transfer_rate = "0";
  source = "";
  version = "";
}

abbrev pub day : String → ℕ → Bar whole
day time price = record {
  time = time;
  open_ = pos price;
  high = pos price;
  low = pos price;
  close = pos price;
  volume = pos 100;
}

abbrev session : Session whole
session = record {
  all = day "2024-01-02" 10 ∷ day "2024-01-03" 12 ∷ [];
  i = 1;
  rule = stock_rule;
  tick = pos 1;
  slip = pos 0;
  part = pos 1;
}

abbrev lot : ℕ → String → Lot whole
lot qty available = record {
  qty = pos qty;
  cost = pos 100;
  available = available;
  buy_date = "2024-01-02";
}

-- The second lot may be sold only on the next day.
abbrev two_lots : List (Lot whole)
two_lots = lot 25 "2024-01-03" ∷ lot 20 "2024-01-04" ∷ []

abbrev order_of : Side → Pending whole
order_of side = record {
  side = side;
  signal = "";
  reason = "";
  target_frac = pos 1;
  exit = false;
  created = "2024-01-02";
}

-- Of the 25 shares that may be sold two lots of 10 go, for 20 * 12 - 5.
sells_two_lots :
    account_after whole (execute whole (order_of sell) session (pos 100) two_lots)
    ≡ record { cash = pos 335; shares = pos 25 }
unfolding execute execute_sell capped floor_lot sum_from sellable_from reduce_lots limit_blocked
    fee_total ◌+ℤ◌ ◌-ℤ◌ ◌*ℤ◌ div_ℤ trim_space
sells_two_lots = refl

-- With 100 one buys at most 8 shares at 12, which is no whole lot.
buys_no_lot :
    (execute whole (order_of buy) session (pos 100) []).order.reason ≡ "INSUFFICIENT_CASH_OR_LOT"
unfolding execute execute_buy capped floor_lot limit_blocked ◌+ℤ◌ ◌-ℤ◌ ◌*ℤ◌ div_ℤ trim_space
buys_no_lot = refl

buys_one_lot :
    account_after whole (execute whole (order_of buy) session (pos 200) [])
    ≡ record { cash = pos 75; shares = pos 10 }
unfolding execute execute_buy capped floor_lot sum_from limit_blocked fee_total ◌+ℤ◌ ◌-ℤ◌ ◌*ℤ◌ div_ℤ
    trim_space
buys_one_lot = refl

execute-Trade_example :
    Trade whole whole-Lawful session sell true
      (account whole (pos 100) two_lots)
      (account_after whole (execute whole (order_of sell) session (pos 100) two_lots))
unfolding execute execute_sell capped floor_lot sum_from sellable_from limit_blocked ◌+ℤ◌ ◌-ℤ◌ ◌*ℤ◌
    div_ℤ trim_space
execute-Trade_example =
    execute-Trade whole whole-Lawful session (order_of sell) (pos 100) two_lots refl refl refl
      (refl, (refl, tt))

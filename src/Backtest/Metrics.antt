-- ===== src/Backtest/Metrics.antt =====
-- metrics of service/backtest/engine.go: the return, the drawdown and the round trips of a simulation.
use zhigu.Base.{
  ℕ, suc, Bool, true, false, ◌&&◌, Option, none, some, List, [], ◌∷◌, String, str_eq, length, ltb,
  ◌==◌, if◌then◌else◌, Decimals,
}
use zhigu.Backtest.Ledger.{Side, buy, sell, must_dec}
use zhigu.Backtest.Orders.{Order, Fill}
use zhigu.Backtest.Actions.{Equity}
use zhigu.Backtest.Days.{Config}

-- The keys of the map; none where it has nil or no such key. `annualized` tells whether it has
-- annualized_note, and `payoff_unknown` whether it has payoff_ratio, which is nil.
pub record Metrics : Type 0 where
  pub trade_count : ℕ
  pub annualized : Bool
  pub short_sample : Bool
  pub total_return : Option String
  pub max_drawdown : Option String
  pub round_trips : Option ℕ
  pub win_rate : Option String
  pub payoff_unknown : Bool

abbrev pub is_filled : Order → Bool
is_filled o = str_eq o.status "filled"

abbrev pub last_of : Equity → List Equity → Equity
last_of row [] = row
last_of row (next ∷ rows) = last_of next rows

module _ (d : Decimals) where
  -- The variables of the loop over the orders: a position is open from a buy to the next sale.
  pub record Rounds : Type 0 where
    pub wins : ℕ
    pub losses : ℕ
    pub rounds : ℕ
    pub open_cost : d.Decimal
    pub is_open : Bool

  abbrev pub value_of : Order → d.Decimal
  value_of o = d.mul (must_dec d o.qty) (must_dec d o.price)

  abbrev pub bump : Bool → ℕ → ℕ
  bump b n = if b then suc n else n

  abbrev pub close_round : d.Decimal → Rounds → Rounds
  close_round proceeds r =
      let won = d.lt r.open_cost proceeds in
      record r {
        wins = bump won r.wins;
        losses = if won then r.losses else bump (d.lt proceeds r.open_cost) r.losses;
        rounds = suc r.rounds;
        is_open = false;
      }

  abbrev pub trade_round : Order → Side → Rounds → Rounds
  trade_round o buy r = record r { open_cost = value_of o; is_open = true }
  trade_round o sell r = if r.is_open then close_round (value_of o) r else r

  abbrev pub count_round : Order → Rounds → Rounds
  count_round o r = if is_filled o then trade_round o o.side r else r

  unfoldable pub count_rounds : List Order → Rounds → Rounds
  count_rounds [] r = r
  count_rounds (o ∷ orders) r = count_rounds orders (count_round o r)

  abbrev pub no_rounds : Rounds
  no_rounds = record { wins = 0; losses = 0; rounds = 0; open_cost = d.zero; is_open = false }

  unfoldable pub deepest : d.Decimal → List Equity → d.Decimal
  deepest m [] = m
  deepest m (row ∷ rows) =
      let dd = must_dec d row.drawdown in deepest (if d.lt m dd then dd else m) rows

  abbrev pub initial_value : Config → Equity → d.Decimal
  initial_value cfg row =
      must_dec d (if str_eq cfg.initial_cash "" then row.equity else cfg.initial_cash)

  abbrev pub rate : ℕ → ℕ → Option String
  rate wins rounds =
      if rounds == 0 then none else some (d.show (d.div (d.of_nat wins) (d.of_nat rounds)))

  unfoldable pub metrics : List Equity → List Fill → List Order → Config → Metrics
  metrics [] fills orders cfg = record {
    trade_count = length fills;
    annualized = false;
    short_sample = false;
    total_return = none;
    max_drawdown = none;
    round_trips = none;
    win_rate = none;
    payoff_unknown = false;
  }
  metrics (row ∷ rows) fills orders cfg =
      let start = initial_value cfg row in
      let last = must_dec d (last_of row rows).equity in
      let r = count_rounds orders no_rounds in
      let gains = d.lt d.zero start in
      record {
        trade_count = length fills;
        annualized = gains;
        short_sample = gains && ltb (length (row ∷ rows)) 365;
        total_return =
            if gains then some (d.show (d.sub (d.div last start) (d.of_nat 1))) else none;
        max_drawdown = some (d.show (deepest d.zero (row ∷ rows)));
        round_trips = some r.rounds;
        win_rate = rate r.wins r.rounds;
        payoff_unknown = r.losses == 0;
      }

  -- The filled orders of a side.
  unfoldable pub filled_of : (Side → Bool) → List Order → ℕ
  filled_of side [] = 0
  filled_of side (o ∷ orders) =
      let n = filled_of side orders in if is_filled o && side o.side then suc n else n

-- ===== src/Backtest/RoundTrips.antt =====
-- The round trips that metrics of service/backtest/engine.go counts.
use zhigu.Base.{
  ℕ, suc, ◌+◌, ◌≤◌, ◌≡◌, ap, inl, inr, Bool, true, false, Bool-cases, ◌&&◌, Option, none, some,
  List, [], ◌∷◌, if◌then◌else◌, arith, Decimals,
}
use zhigu.Backtest.Ledger.{Side, buy, sell}
use zhigu.Backtest.Orders.{Order, Fill}
use zhigu.Backtest.Actions.{Equity}
use zhigu.Backtest.Days.{Config}
use zhigu.Backtest.Metrics.{
  Rounds, is_filled, trade_round, count_round, count_rounds, no_rounds, metrics, rate, filled_of,
}

abbrev pub is_buy : Side → Bool
is_buy buy = true
is_buy sell = false

abbrev pub is_sell : Side → Bool
is_sell buy = false
is_sell sell = true

abbrev number : ℕ → Option ℕ → ℕ
number n none = n
number n (some m) = m

module _ (d : Decimals) where
  abbrev opened : Rounds d → ℕ
  opened r = if r.is_open then 1 else 0

  abbrev one : Bool → ℕ
  one b = if b then 1 else 0

  one_more : (b : Bool) (n : ℕ) → (if b then suc n else n) ≡ one b + n
  one_more true n = omega arith
  one_more false n = omega arith

  -- What an order adds.
  record Step (filled : Bool) (side : Side) (r r' : Rounds d) : Type 0 where
    decided : r.wins + r.losses ≤ r.rounds → r'.wins + r'.losses ≤ r'.rounds
    sales : r'.rounds ≤ r.rounds + one (filled && is_sell side)
    buys : r'.rounds + opened r' ≤ r.rounds + opened r + one (filled && is_buy side)

  trade-Step : (o : Order) (side : Side) (r : Rounds d) → Step true side r (trade_round d o side r)
  trade-Step o buy r = record { decided = λ h. h; sales = omega arith; buys = ground arith }
  trade-Step o sell r = record {
    decided = λ h. ground arith;
    sales = ground arith;
    buys = ground arith;
  }

  count-Step : (o : Order) (r : Rounds d) → Step (is_filled o) o.side r (count_round d o r)
  count-Step o r = elim (Bool-cases (is_filled o)) [
    | inl e ↦ rw e (trade-Step o o.side r)
    | inr e ↦ rw e (record { decided = λ h. h; sales = omega arith; buys = omega arith })
  ]

  record Counted (orders : List Order) (r r' : Rounds d) : Type 0 where
    decided : r.wins + r.losses ≤ r.rounds → r'.wins + r'.losses ≤ r'.rounds
    sales : r'.rounds ≤ r.rounds + filled_of d is_sell orders
    buys : r'.rounds + opened r' ≤ r.rounds + opened r + filled_of d is_buy orders

  count_rounds-Counted :
      (orders : List Order) (r : Rounds d) → Counted orders r (count_rounds d orders r)
  unfolding count_rounds filled_of
  count_rounds-Counted [] r = record { decided = λ h. h; sales = omega arith; buys = omega arith }
  count_rounds-Counted (o ∷ orders) r =
      let step = count-Step o r in
      let rest = count_rounds-Counted orders (count_round d o r) in
      let sales' = step.sales in
      let sales'' = rest.sales in
      let buys' = step.buys in
      let buys'' = rest.buys in
      record {
        decided = λ h. rest.decided (step.decided h);
        sales = rw (one_more (is_filled o && is_sell o.side) _) (omega arith);
        buys = rw (one_more (is_filled o && is_buy o.side) _) (omega arith);
      }

  -- The round trips that are reported are at most the filled buys and at most the filled sales, and the
  -- rate of wins is that of a number which is at most theirs.
  pub metrics-RoundTrips :
      (equity : List Equity) (fills : List Fill) (orders : List Order) (cfg : Config) (n : ℕ)
      → (metrics d equity fills orders cfg).round_trips ≡ some n
      → (n ≤ filled_of d is_buy orders)
        × (n ≤ filled_of d is_sell orders)
        × ((wins : ℕ) × (wins ≤ n) × ((metrics d equity fills orders cfg).win_rate ≡ rate d wins n))
  unfolding metrics
  metrics-RoundTrips [] fills orders cfg n e = absurd (cc e)
  metrics-RoundTrips (row ∷ rows) fills orders cfg n e =
      let r = count_rounds d orders (no_rounds d) in
      let counted = count_rounds-Counted orders (no_rounds d) in
      let same : r.rounds ≡ n = ap (number r.rounds) e in
      let decided = counted.decided (omega arith) in
      let sales = counted.sales in
      let buys = counted.buys in
      (omega arith, omega arith, (r.wins, omega arith, ap (rate d r.wins) same))

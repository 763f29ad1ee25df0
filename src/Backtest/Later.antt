-- ===== src/Backtest/Later.antt =====
-- When the orders of a simulation are executed. service/backtest/engine.go.
use zhigu.Base.{
  ℕ, suc, ◌<◌, ◌≡◌, refl, ap, subst, ◌⊎◌, inl, inr, Bool, true, false, Option, none, some, List, [],
  ◌∷◌, ◌++◌, All, All-append, All-map, String, ◌<>◌, Result, ok, err, arith, length, Bool-cases,
  ◌&&◌, Decimals, le, or_zero,
}
use zhigu.Indicators.Averages.{Bar, bar}
use zhigu.Indicators.Engine.{Series, compute_many}
use zhigu.Backtest.Ledger.{Lot, Side, buy, sell}
use zhigu.Backtest.Orders.{
  Order, Fill, Pending, Execution, Session, today, cap, prev_volume, execute, execute_buy,
  execute_sell, execute_side,
}
use zhigu.Backtest.Days.{
  Refusal, strategy_invalid, Input, RunState, Setting, session, execute_pending, execute_if,
  settled, run_days,
}
use zhigu.Backtest.Kept.{if_both, IsExit, Keeping, IfOk, run_days-IfOk}
use zhigu.Backtest.Run.{
  Report, RunResult, failed, succeeded, run, ended, refuse, simulate, simulate_with, rule_checks,
  checks_of, signal_bars, setting, initial,
}

refuse-succeeded :
    (checks : List (Bool × Refusal)) (rest : RunResult) {r : Report}
    → refuse checks rest ≡ succeeded r
    → rest ≡ succeeded r
refuse-succeeded [] rest h = h
refuse-succeeded ((false, why) ∷ checks) rest h = refuse-succeeded checks rest h
refuse-succeeded ((true, why) ∷ checks) rest h = cc

abbrev orders_of : RunResult → List Order
orders_of (succeeded r) = r.orders
orders_of (failed _) = []

module _ (d : Decimals) where
  -- What an order keeps of the pending order and of the day.
  record Keeps (p : Pending d) (s : Session d) (e : Execution d) : Type 0 where
    kept_side : e.order.side ≡ p.side
    kept_signal : e.order.signal_id ≡ p.signal
    kept_day : e.order.submitted ≡ (today d s).time

  module _ (p : Pending d) (s : Session d) (cash : d.Decimal) (lots : List (Lot d)) where
    execute_side-Keeps : (side : Side) → Keeps p s (execute_side d side p s cash lots)
    unfolding execute_buy execute_sell
    execute_side-Keeps buy = record {
      kept_side = ground arith;
      kept_signal = ground arith;
      kept_day = ground arith;
    }
    execute_side-Keeps sell = record {
      kept_side = ground arith;
      kept_signal = ground arith;
      kept_day = ground arith;
    }

    execute-Keeps : Keeps p s (execute d p s cash lots)
    unfolding execute
    execute-Keeps = elim (Bool-cases (le d (today d s).open_ d.zero)) [
      | inl e ↦ rw e (record { kept_side = refl; kept_signal = refl; kept_day = refl })
      | inr e1 ↦ elim (Bool-cases (le d (cap d s) d.zero && d.eq (prev_volume d s) d.zero)) [
        | inl e ↦ rw (e1, e) (record { kept_side = refl; kept_signal = refl; kept_day = refl })
        | inr e2 ↦ rw (e1, e2) (execute_side-Keeps p.side)
      ]
    ]

  -- The name of a signal of a day for an order of the side.
  abbrev pub IsSignal : Side → String → String → Type 0
  IsSignal buy time id = id ≡ "entry_" <> time
  IsSignal sell time id = (id ≡ "exit_" <> time) ⊎ (id ≡ "risk_" <> time)

  abbrev time : List (Bar d) → ℕ → String
  time raw j = (bar d raw j).time

  -- The signal came on a bar before bar i.
  abbrev pub Asked : List (Bar d) → ℕ → Pending d → Type 0
  Asked raw i p = (j : ℕ) × (j < i) × IsSignal p.side (time raw j) p.signal

  -- The order was executed on bar k < i, after the bar j of its signal.
  abbrev pub Later : List (Bar d) → ℕ → Order → Type 0
  Later raw i o =
      (j : ℕ) × (k : ℕ) × (j < k)
      × (k < i)
      × IsSignal o.side (time raw j) o.signal_id
      × (o.submitted ≡ time raw k)

  abbrev IfAsked : List (Bar d) → ℕ → Option (Pending d) → Type 0
  IfAsked raw i none = Unit
  IfAsked raw i (some p) = Asked raw i p

  pub InTurn : List (Bar d) → ℕ → RunState d → Type 0
  InTurn raw i s = All (Later raw i) s.orders × IfAsked raw i s.pend

  Later-suc : (raw : List (Bar d)) (i : ℕ) (o : Order) → Later raw i o → Later raw (suc i) o
  Later-suc raw i o (j, k, jk, ki, h, e) = (j, k, jk, omega arith, h, e)

  IfAsked-suc :
      (raw : List (Bar d)) (i : ℕ) (p : Option (Pending d))
      → IfAsked raw i p
      → IfAsked raw (suc i) p
  IfAsked-suc raw i none h = tt
  IfAsked-suc raw i (some p) (j, ji, h) = (j, omega arith, h)

  InTurn-suc : (raw : List (Bar d)) (i : ℕ) (s : RunState d) → InTurn raw i s → InTurn raw (suc i) s
  unfolding InTurn
  InTurn-suc raw i s (orders, asked) = (
    All-map (Later raw i) (Later raw (suc i)) s.orders (Later-suc raw i) orders,
    IfAsked-suc raw i s.pend asked,
  )

  settled-InTurn :
      (raw : List (Bar d)) (i : ℕ) (s : RunState d) (p : Pending d) (done : Execution d)
      (f : Option Fill)
      → All (Later raw (suc i)) (s.orders ++ done.order ∷ [])
      → Asked raw (suc i) p
      → InTurn raw (suc i) (settled d p done s f)
  unfolding InTurn
  settled-InTurn raw i s p done (some f) h asked = (h, tt)
  settled-InTurn raw i s p done none h asked = (
    h,
    if_both (IfAsked raw (suc i)) p.exit (some (record p { reason = done.order.reason })) none asked
        tt,
  )

  execute_pending-InTurn :
      (g : Setting d) (i : ℕ) (s : RunState d)
      → InTurn g.input.raw i s
      → InTurn g.input.raw (suc i) (execute_pending d g i s)
  unfolding InTurn execute_pending
  execute_pending-InTurn g i s h = by_pending s.pend h.1
    where
      by_pending :
          (p : Option (Pending d))
          → IfAsked g.input.raw i p
          → InTurn g.input.raw (suc i) (execute_if d g i s p)
      by_pending none asked = InTurn-suc g.input.raw i s h
      by_pending (some p) (j, ji, signal) =
          let done = execute d p (session d g i) s.holdings.cash s.holdings.lots in
          let keeps = execute-Keeps p (session d g i) s.holdings.cash s.holdings.lots in
          let later : Later g.input.raw (suc i) done.order = (
            j,
            i,
            ji,
            omega arith,
            rw (keeps.kept_side, keeps.kept_signal) signal,
            keeps.kept_day,
          ) in
          settled-InTurn g.input.raw i s p done done.fill
            (All-append (Later g.input.raw (suc i)) s.orders (done.order ∷ [])
              (InTurn-suc g.input.raw i s h).0 (later, tt))
            (j, omega arith, signal)

  exit-IsSignal : (prefix time : String) → IsExit prefix → IsSignal sell time (prefix <> time)
  exit-IsSignal prefix time (inl e) = inl (ap (λ p. p <> time) e)
  exit-IsSignal prefix time (inr e) = inr (ap (λ p. p <> time) e)

  InTurn-Keeping : (g : Setting d) → Keeping d g (InTurn g.input.raw)
  unfolding InTurn
  InTurn-Keeping g = record {
    morning = λ i s h. h;
    next = λ i s h. InTurn-suc g.input.raw i s h;
    actions = λ i s h. h;
    note = λ i day s h. h;
    trade = λ i s h. execute_pending-InTurn g i s h;
    exit = λ i kind prefix s exit h.
        (h.0, (i, omega arith, exit-IsSignal prefix (time g.input.raw i) exit));
    entry = λ i s flat h. (h.0, (i, omega arith, refl));
  }

  orders-Later :
      (inp : Input d) (result : Result (RunState d)) (r : Report)
      → IfOk d (InTurn inp.raw (length inp.raw)) result
      → ended d inp result ≡ succeeded r
      → All (Later inp.raw (length inp.raw)) r.orders
  unfolding IfOk InTurn
  orders-Later inp (ok s) r h e = subst (All (Later inp.raw (length inp.raw))) (ap orders_of e) h.0
  orders-Later inp (err _) r h e = absurd (cc e)

  simulate-Later :
      (inp : Input d) (bars : List (Bar d)) (cash : d.Decimal) (r : Report)
      → simulate d inp bars cash ≡ succeeded r
      → All (Later inp.raw (length inp.raw)) r.orders
  unfolding InTurn
  simulate-Later inp bars cash r = by_series (compute_many d bars inp.doc.indicators)
    where
      by_series :
          (computed : Result (List (Series d)))
          → elim computed as (λ _. RunResult) [
            | err _ ↦ failed strategy_invalid
            | ok series ↦ simulate_with d inp bars cash series
          ]
            ≡ succeeded r
          → All (Later inp.raw (length inp.raw)) r.orders
      by_series (err why) e = absurd (cc e)
      by_series (ok series) e =
          let g = setting d inp bars series in
          let start = initial d cash in
          let days = run_days d g (length inp.raw) 0 start in
          let kept =
            run_days-IfOk d g (InTurn inp.raw) (InTurn-Keeping g) (length inp.raw) 0 start
              (tt, tt) in
          orders-Later inp days r (subst (λ n. IfOk d (InTurn inp.raw n) days) (omega arith) kept)
            (refuse-succeeded (rule_checks d inp) (ended d inp days) e)

  -- In a simulation that succeeds every order is executed after the bar of its signal.
  pub run-Later :
      (inp : Input d) (r : Report)
      → run d inp ≡ succeeded r
      → All (Later inp.raw (length inp.raw)) r.orders
  unfolding run
  run-Later inp r e =
      let cash = or_zero d (d.parse inp.config.initial_cash) in
      let bars = signal_bars d inp in
      simulate-Later inp bars cash r
        (refuse-succeeded (checks_of d inp) (simulate d inp bars cash) e)

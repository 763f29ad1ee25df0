-- ===== src/Backtest/Flat.antt =====
-- A simulation holds one position at a time: an order to buy is pending only where no shares are held.
-- service/backtest/engine.go.
use zhigu.Base.{
  ℕ, ◌≡◌, refl, sym, ap, ◌∙◌, subst, inl, inr, Bool, true, false, ◌&&◌, Option, none, some, List,
  [], ◌∷◌, map, All-append, String, str_eq, if◌then◌else◌, Bool-cases, Decimals, le, ok,
}
use zhigu.Backtest.Laws.{Lawful, Le, Le-trans}
use zhigu.Backtest.Ledger.{Lot, Side, buy, sell, sum_qty, limit_blocked, CorporateAction, must_dec}
use zhigu.Backtest.Orders.{
  Fill, Pending, Execution, Session, today, cap, prev_volume, denom, buy_qty, sell_qty, need,
  execute, execute_buy, execute_sell, execute_side,
}
use zhigu.Backtest.Shares.{IsLong, reduce_lots-IsLong}
use zhigu.Backtest.Actions.{
  Holdings, apply_actions, apply_each, apply_action, split_lot, split_lots, record_dividend,
  pay_dividend, is_day,
}
use zhigu.Backtest.Days.{
  RunState, Setting, Input, with_actions, run_days, session, execute_pending, execute_if, settled,
}
use zhigu.Backtest.Kept.{Keeping, if_both, IfOk, run_days-IfOk}
use zhigu.Backtest.Run.{setting, initial}
use zhigu.Indicators.Averages.{Bar, bar}
use zhigu.Indicators.Engine.{Series}

module _ (d : Decimals) (law : Lawful d) where
  -- An order fits the lots: a buy finds no shares, a sale is an exit.
  pub data Fits (lots : List (Lot d)) : Option (Pending d) → Type 0 where
    nothing : Fits lots none
    entry : (p : Pending d) → p.exit ≡ false → sum_qty d lots ≡ d.zero → Fits lots (some p)
    exit : (p : Pending d) → p.exit ≡ true → p.side ≡ sell → Fits lots (some p)

  pub record Single (s : RunState d) : Type 0 where
    pub is_long : IsLong d law s.holdings.lots
    pub fits : Fits s.holdings.lots s.pend

  module _ (p : Pending d) (s : Session d) (cash : d.Decimal) (lots : List (Lot d))
      (long : IsLong d law lots) where
    execute_side-IsLong : (side : Side) → IsLong d law (execute_side d side p s cash lots).lots
    unfolding execute_buy execute_sell
    execute_side-IsLong buy = elim (Bool-cases (limit_blocked d (today d s) s.all s.i s.rule buy)) [
      | inl e ↦ rw e long
      | inr e1 ↦ elim (Bool-cases (le d (denom d s) d.zero)) [
        | inl e ↦ rw (e1, e) long
        | inr e2 ↦ elim (Bool-cases (d.lt (buy_qty d p s cash) (d.of_nat s.rule.lot_size))) [
          | inl e ↦ rw (e1, e2, e) long
          | inr e3 ↦ elim (Bool-cases (d.lt cash (need d s (buy_qty d p s cash)))) [
            | inl e ↦ rw (e1, e2, e3, e) long
            | inr e4 ↦
                rw (e1, e2, e3, e4)
                  (All-append (λ (l : Lot d). Le d law d.zero l.qty) lots _ long
                    (
                      Le-trans d law d.zero (d.of_nat s.rule.lot_size) (buy_qty d p s cash)
                          (law.of_nat_least s.rule.lot_size) e3,
                      tt,
                    ))
          ]
        ]
      ]
    ]
    execute_side-IsLong sell =
        elim (Bool-cases (limit_blocked d (today d s) s.all s.i s.rule sell)) [
          | inl e ↦ rw e long
          | inr e1 ↦ elim (Bool-cases (le d (sell_qty d s lots) d.zero)) [
            | inl e ↦ rw (e1, e) long
            | inr e2 ↦ rw (e1, e2) (reduce_lots-IsLong d law (sell_qty d s lots) lots long)
          ]
        ]

    execute-IsLong : IsLong d law (execute d p s cash lots).lots
    unfolding execute
    execute-IsLong = elim (Bool-cases (le d (today d s).open_ d.zero)) [
      | inl e ↦ rw e long
      | inr e1 ↦ elim (Bool-cases (le d (cap d s) d.zero && d.eq (prev_volume d s) d.zero)) [
        | inl e ↦ rw (e1, e) long
        | inr e2 ↦ rw (e1, e2) (execute_side-IsLong p.side)
      ]
    ]

  split_lots-IsLong :
      (r : d.Decimal) (lots : List (Lot d)) → IsLong d law lots → IsLong d law (split_lots d r lots)
  split_lots-IsLong r lots long = elim (Bool-cases (d.lt d.zero r)) [
    | inl e ↦ rw e (each e lots long)
    | inr e ↦ rw e long
  ]
    where
      each :
          d.lt d.zero r ≡ true
          → (ls : List (Lot d)) → IsLong d law ls
          → IsLong d law (map (split_lot d r) ls)
      each e [] h = tt
      each e (l ∷ ls) h = (law.mul_least l.qty r h.0 e, each e ls h.1)

  -- Lots that are long stay long, and without shares nothing happens to them.
  Untouched : d.Decimal → Holdings d → Holdings d → Type 0
  Untouched qty h h' = IsLong d law h'.lots × (d.lt d.zero qty ≡ false → h'.lots ≡ h.lots)

  module _ (date : String) (qty : d.Decimal) (a : CorporateAction) (h : Holdings d)
      (long : IsLong d law h.lots) where
    split-Untouched :
        (b : Bool)
        → Untouched qty h (
            if b && d.lt d.zero qty
            then record h { lots = split_lots d (must_dec d a.ratio) h.lots }
            else h)
    unfolding Untouched
    split-Untouched false = (long, λ _. refl)
    split-Untouched true = elim (Bool-cases (d.lt d.zero qty)) [
      | inl e ↦ rw e (split_lots-IsLong (must_dec d a.ratio) h.lots long, λ no. absurd (cc))
      | inr e ↦ rw e (long, λ _. refl)
    ]

    same_lots : (k : Holdings d) → k.lots ≡ h.lots → Untouched qty h k
    unfolding Untouched
    same_lots k e = (subst (IsLong d law) (sym e) long, λ _. e)

    HasLots : Holdings d → Type 0
    HasLots k = k.lots ≡ h.lots

    recorded : HasLots (record_dividend d date qty a h)
    unfolding HasLots
    recorded =
        if_both HasLots (is_day date a.record_date && d.lt d.zero qty)
          (record h { recv = d.add h.recv (d.mul qty (must_dec d a.cash_amount)) }) h refl refl

    paid : (k : Holdings d) → HasLots k → HasLots (pay_dividend d date a k)
    unfolding HasLots
    paid k e =
        if_both HasLots (is_day date a.pay_date && d.lt d.zero k.recv)
          (record k { cash = d.add k.cash k.recv; recv = d.zero }) k e e

    dividend-Untouched : Untouched qty h (pay_dividend d date a (record_dividend d date qty a h))
    unfolding HasLots
    dividend-Untouched = same_lots _ (paid (record_dividend d date qty a h) recorded)

    apply_action-Untouched : Untouched qty h (apply_action d date qty a h)
    apply_action-Untouched =
        if_both (Untouched qty h) (str_eq a.kind "split") _ _
          (split-Untouched (str_eq a.effective_at date))
          (if_both (Untouched qty h) (str_eq a.kind "cash_dividend") _ _ dividend-Untouched
            (same_lots h refl))

  apply_each-Untouched :
      (date : String) (qty : d.Decimal) (actions : List CorporateAction) (h : Holdings d)
      → IsLong d law h.lots
      → Untouched qty h (apply_each d date qty actions h)
  unfolding Untouched apply_each
  apply_each-Untouched date qty [] h long = (long, λ _. refl)
  apply_each-Untouched date qty (a ∷ actions) h long =
      let (long', same) = apply_action-Untouched date qty a h long in
      let (long'', same') =
        apply_each-Untouched date qty actions (apply_action d date qty a h) long' in
      (long'', λ none_held. same' none_held ∙ same none_held)

  actions-Fits :
      (date : String) (actions : List CorporateAction) (h : Holdings d) (p : Option (Pending d))
      → IsLong d law h.lots
      → Fits h.lots p
      → Fits (apply_actions d date actions h).lots p
  unfolding apply_actions Untouched
  actions-Fits date actions h p long nothing = nothing
  actions-Fits date actions h p long (exit q e side) = exit q e side
  actions-Fits date actions h p long (entry q e flat) =
      let (_, same) = apply_each-Untouched date (sum_qty d h.lots) actions h long in
      let none_held = ap (d.lt d.zero) flat ∙ law.lt_irrefl d.zero in
      entry q e (ap (sum_qty d) (same none_held) ∙ flat)

  actions-Single :
      (g : Setting d) (i : ℕ) (s : RunState d) → Single s → Single (with_actions d g i s)
  unfolding apply_actions Untouched
  actions-Single g i s h =
      let date = (bar d g.input.raw i).time in
      let qty = sum_qty d s.holdings.lots in
      record {
        is_long = (apply_each-Untouched date qty g.input.actions s.holdings h.is_long).0;
        fits = actions-Fits date g.input.actions s.holdings s.pend h.is_long h.fits;
      }

  settled-Single :
      (p : Pending d) (done : Execution d) (s : RunState d) (f : Option Fill)
      → IsLong d law done.lots
      → Single s
      → Fits s.holdings.lots (some p)
      → Single (settled d p done s f)
  settled-Single p done s (some f) long h fit = record { is_long = long; fits = nothing }
  settled-Single p done s none long h (entry q e flat) =
      rw e (record { is_long = h.is_long; fits = nothing })
  settled-Single p done s none long h (exit q e side) =
      rw e (record { is_long = h.is_long; fits = exit _ refl side })

  trade-Single :
      (g : Setting d) (i : ℕ) (s : RunState d) → Single s → Single (execute_pending d g i s)
  unfolding execute_pending
  trade-Single g i s h = by_pending s.pend h.fits
    where
      by_pending : (p : Option (Pending d)) → Fits s.holdings.lots p → Single (execute_if d g i s p)
      by_pending none fit = h
      by_pending (some p) fit =
          let done = execute d p (session d g i) s.holdings.cash s.holdings.lots in
          settled-Single p done s done.fill
            (execute-IsLong p (session d g i) s.holdings.cash s.holdings.lots h.is_long) h fit

  Single-Keeping : (g : Setting d) → Keeping d g (λ _ s. Single s)
  Single-Keeping g = record {
    morning = λ i s h. record { is_long = h.is_long; fits = h.fits };
    next = λ i s h. h;
    actions = λ i s h. actions-Single g i s h;
    note = λ i day s h. record { is_long = h.is_long; fits = h.fits };
    trade = λ i s h. trade-Single g i s h;
    exit = λ i kind prefix s _ h. record { is_long = h.is_long; fits = exit _ refl refl };
    entry =
        λ i s flat h. record { is_long = h.is_long; fits = entry _ refl (law.eq-true _ _ flat) };
  }

  -- After any number of days of a simulation no lot is below 0, and if an order is pending, it is an
  -- entry where no shares are held, or a sale that is an exit.
  pub run_days-Single :
      (inp : Input d) (bars : List (Bar d)) (series : List (Series d)) (cash : d.Decimal) (days : ℕ)
      (s : RunState d)
      → run_days d (setting d inp bars series) days 0 (initial d cash) ≡ ok s
      → Single s
  unfolding IfOk
  run_days-Single inp bars series cash days s e =
      let g = setting d inp bars series in
      let start : Single (initial d cash) = record { is_long = tt; fits = nothing } in
      let kept =
        run_days-IfOk d g (λ _ s. Single s) (Single-Keeping g) days 0 (initial d cash) start in
      subst (IfOk d Single) e kept

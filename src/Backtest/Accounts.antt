-- ===== src/Backtest/Accounts.antt =====
-- The execution of an order as a trade of an account: its cash and the sum of its shares, whatever
-- the lots. service/backtest/engine.go.
use zhigu.Base.{
  ◌≡◌, refl, ap, ◌∙◌, inl, inr, Bool, true, false, not, List, if◌then◌else◌, Bool-cases, is_some,
  ◌&&◌, Decimals, le,
}
use zhigu.Backtest.Laws.{Lawful, Le, Le-trans, Le_of_lt, zero_add, lt-sub}
use zhigu.Backtest.Ledger.{Lot, sum_qty, sellable, floor_lot, limit_blocked, Side, buy, sell}
use zhigu.Backtest.Orders.{
  Pending, Execution, Session, today, cap, today_cap, capped, prev_volume, denom, buy_qty, sell_qty,
  need, proceeds, execute, execute_buy, execute_sell, execute_side,
}
use zhigu.Backtest.Shares.{IsLong, reduce_lots-sum_qty, sum_qty-append, sellable-Le}

module _ (d : Decimals) where
  pub record Account : Type 0 where
    pub cash : d.Decimal
    pub shares : d.Decimal

  abbrev pub account : d.Decimal → List (Lot d) → Account
  account cash lots = record { cash = cash; shares = sum_qty d lots }

  abbrev pub account_after : Execution d → Account
  account_after o = account o.cash o.lots

module _ (d : Decimals) (law : Lawful d) where
  -- A trade of a side in a session, and whether there is a fill.
  pub data Trade (s : Session d) : Side → Bool → Account d → Account d → Type 0 where
    rejects : (side : Side) (a : Account d) → Trade s side false a a
    buys :
        (a b : Account d) (qty : d.Decimal)
        → Le d law (d.of_nat s.rule.lot_size) qty
        → Le d law qty (today_cap d s)
        → b.shares ≡ d.add a.shares qty
        → d.add b.cash (need d s qty) ≡ a.cash
        → Le d law d.zero b.cash
        → Trade s buy true a b
    sells :
        (a b : Account d) (qty : d.Decimal)
        → d.lt d.zero qty ≡ true
        → Le d law qty (today_cap d s)
        → Le d law qty a.shares
        → d.add b.shares qty ≡ a.shares
        → b.cash ≡ d.add a.cash (proceeds d s qty)
        → Trade s sell true a b

  -- The quotient of the quantity by the lot size is not rounded up to a whole number.
  abbrev pub RoundsDown : Session d → d.Decimal → Type 0
  RoundsDown s x = Le d law (floor_lot d x s.rule.lot_size) x

  module _ (s : Session d) (down : RoundsDown s (cap d s))
      (down' : RoundsDown s (today_cap d s)) where
    unfoldable limited : (c x : d.Decimal) → d.Decimal
    limited c x = if d.lt c x then floor_lot d c s.rule.lot_size else x

    limited-cap : (c x : d.Decimal) → RoundsDown s c → Le d law (limited c x) c
    unfolding limited
    limited-cap c x h = elim (Bool-cases (d.lt c x)) [ inl e ↦ rw e h | inr e ↦ rw e e ]

    limited-quantity : (c x : d.Decimal) → RoundsDown s c → Le d law (limited c x) x
    unfolding limited
    limited-quantity c x h = elim (Bool-cases (d.lt c x)) [
      | inl e ↦ rw e (Le-trans d law _ c x h (Le_of_lt d law c x e))
      | inr e ↦ rw e (law.lt_irrefl x)
    ]

    capped-today_cap : (qty : d.Decimal) → Le d law (capped d s qty) (today_cap d s)
    unfolding capped limited
    capped-today_cap qty = limited-cap (today_cap d s) _ down'

    guarded-quantity :
        (b : Bool) (c x : d.Decimal)
        → RoundsDown s c
        → Le d law (if b && d.lt c x then floor_lot d c s.rule.lot_size else x) x
    unfolding limited
    guarded-quantity false c x h = law.lt_irrefl x
    guarded-quantity true c x h = limited-quantity c x h

    capped-quantity : (qty : d.Decimal) → Le d law (capped d s qty) qty
    unfolding capped limited
    capped-quantity qty =
        Le-trans d law _ _ qty (limited-quantity (today_cap d s) _ down')
          (guarded-quantity (not (d.eq (cap d s) d.zero)) (cap d s) qty down)

    buy-Trade :
        (p : Pending d) (cash : d.Decimal) (lots : List (Lot d))
        → Trade s buy
            (is_some (execute_buy d p s cash lots).fill)
            (account d cash lots)
            (account_after d (execute_buy d p s cash lots))
    unfolding execute_buy
    buy-Trade p cash lots = elim (Bool-cases (limit_blocked d (today d s) s.all s.i s.rule buy)) [
      | inl e ↦ rw e (rejects buy (account d cash lots))
      | inr e1 ↦ elim (Bool-cases (le d (denom d s) d.zero)) [
        | inl e ↦ rw (e1, e) (rejects buy (account d cash lots))
        | inr e2 ↦ elim (Bool-cases (d.lt (buy_qty d p s cash) (d.of_nat s.rule.lot_size))) [
          | inl e ↦ rw (e1, e2, e) (rejects buy (account d cash lots))
          | inr e3 ↦ elim (Bool-cases (d.lt cash (need d s (buy_qty d p s cash)))) [
            | inl e ↦ rw (e1, e2, e3, e) (rejects buy (account d cash lots))
            | inr e4 ↦
                rw (e1, e2, e3, e4)
                  (buys _ _ (buy_qty d p s cash) e3 (capped-today_cap _)
                    (sum_qty-append d law lots _) (law.sub-add cash (need d s (buy_qty d p s cash)))
                    (lt-sub d law cash d.zero (need d s (buy_qty d p s cash))
                      ∙ ap (d.lt cash) (zero_add d law (need d s (buy_qty d p s cash)))
                      ∙ e4))
          ]
        ]
      ]
    ]

    sell-Trade :
        (p : Pending d) (cash : d.Decimal) (lots : List (Lot d))
        → RoundsDown s (capped d s (sellable d s.rule (today d s).time lots))
        → IsLong d law lots
        → Trade s sell
            (is_some (execute_sell d p s cash lots).fill)
            (account d cash lots)
            (account_after d (execute_sell d p s cash lots))
    unfolding execute_sell
    sell-Trade p cash lots down'' long =
        let owned = sellable d s.rule (today d s).time lots in
        let q = sell_qty d s lots in
        let le_capped : Le d law q (capped d s owned) = down'' in
        let le_shares =
          Le-trans d law q owned (sum_qty d lots)
            (Le-trans d law q _ owned le_capped (capped-quantity owned))
            (sellable-Le d law s.rule (today d s).time lots long) in
        elim (Bool-cases (limit_blocked d (today d s) s.all s.i s.rule sell)) [
          | inl e ↦ rw e (rejects sell (account d cash lots))
          | inr e1 ↦ elim (Bool-cases (d.lt d.zero q)) [
            | inr e ↦ rw (e1, e) (rejects sell (account d cash lots))
            | inl e2 ↦
                rw (e1, e2)
                  (sells _ _ q e2
                    (Le-trans d law q _ (today_cap d s) le_capped (capped-today_cap owned))
                    le_shares
                    (reduce_lots-sum_qty d law q lots long (Le_of_lt d law d.zero q e2) le_shares)
                    refl)
          ]
        ]

  -- Whatever an order does, it is a trade of its side: a rejected one leaves the account as it was.
  pub execute-Trade :
      (s : Session d) (p : Pending d) (cash : d.Decimal) (lots : List (Lot d))
      → RoundsDown s (cap d s)
      → RoundsDown s (today_cap d s)
      → RoundsDown s (capped d s (sellable d s.rule (today d s).time lots))
      → IsLong d law lots
      → Trade s p.side
          (is_some (execute d p s cash lots).fill)
          (account d cash lots)
          (account_after d (execute d p s cash lots))
  unfolding execute
  execute-Trade s p cash lots down down' down'' long =
      elim (Bool-cases (le d (today d s).open_ d.zero)) [
        | inl e ↦ rw e (rejects p.side (account d cash lots))
        | inr e1 ↦ elim (Bool-cases (le d (cap d s) d.zero && d.eq (prev_volume d s) d.zero)) [
          | inl e ↦ rw (e1, e) (rejects p.side (account d cash lots))
          | inr e2 ↦ rw (e1, e2) (by_side p.side)
        ]
      ]
    where
      by_side :
          (side : Side)
          → Trade s side
              (is_some (execute_side d side p s cash lots).fill)
              (account d cash lots)
              (account_after d (execute_side d side p s cash lots))
      by_side buy = buy-Trade s down down' p cash lots
      by_side sell = sell-Trade s down down' p cash lots down'' long

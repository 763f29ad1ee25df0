-- ===== src/Backtest/Shares.antt =====
-- The shares of a position: what is taken from the lots is what they lose.
use zhigu.Base.{
  ◌≡◌, refl, sym, ap, ◌∙◌, subst, inl, inr, List, [], ◌∷◌, ◌++◌, String, Bool-cases, All, Decimals,
}
use zhigu.Backtest.Laws.{
  Lawful, Le, Le-trans, Le_of_lt, zero_add, swap, lt-sub, lt-sub_right, Le-add, Le-add_left,
}
use zhigu.Backtest.Ledger.{
  Lot, sum_from, sum_qty, sellable_from, sellable, is_zero, reduce_lots, TradingRule, date_le,
}

module _ (d : Decimals) (law : Lawful d) where
  abbrev total : List (Lot d) → d.Decimal
  total [] = d.zero
  total (l ∷ ls) = d.add l.qty (total ls)

  sum_from-total : (s : d.Decimal) (ls : List (Lot d)) → sum_from d s ls ≡ d.add s (total ls)
  unfolding sum_from
  sum_from-total s [] = sym (law.add_zero s)
  sum_from-total s (l ∷ ls) = sum_from-total (d.add s l.qty) ls ∙ law.add_assoc s l.qty (total ls)

  pub sum_qty-total : (ls : List (Lot d)) → sum_qty d ls ≡ total ls
  sum_qty-total ls = sum_from-total d.zero ls ∙ zero_add d law (total ls)

  -- No lot is short.
  abbrev pub IsLong : List (Lot d) → Type 0
  IsLong = All (λ (l : Lot d). Le d law d.zero l.qty)

  total-least : (ls : List (Lot d)) → IsLong ls → Le d law d.zero (total ls)
  total-least [] h = law.lt_irrefl d.zero
  total-least (l ∷ ls) h =
      Le-trans d law d.zero (total ls) (d.add l.qty (total ls)) (total-least ls h.1)
        (Le-add_left d law l.qty (total ls) h.0)

  -- A lot kept, in front of lots that lost `left`.
  kept_front : (q t left u : d.Decimal) → d.add t left ≡ u → d.add (d.add q t) left ≡ d.add q u
  kept_front q t left u e = law.add_assoc q t left ∙ ap (d.add q) e

  reduce_lots-total :
      (left : d.Decimal) (ls : List (Lot d))
      → IsLong ls
      → Le d law d.zero left
      → Le d law left (total ls)
      → d.add (total (reduce_lots d left ls)) left ≡ total ls
  unfolding reduce_lots
  reduce_lots-total left [] long h k =
      ap (d.add d.zero) (law.lt_total left d.zero h k) ∙ law.add_zero d.zero
  reduce_lots-total left (l ∷ ls) long h k = elim (Bool-cases (d.lt d.zero left)) [
    | inr none_left ↦
        let nothing = law.lt_total left d.zero h none_left in
        let le_rest = subst (λ x. Le d law x (total ls)) (sym nothing) (total-least ls long.1) in
        rw none_left (
          kept_front l.qty (total (reduce_lots d left ls)) left (total ls)
            (reduce_lots-total left ls long.1 h le_rest))
    | inl some_left ↦ elim (Bool-cases (d.lt left l.qty)) [
      | inr whole_lot ↦
          let left' = d.sub left l.qty in
          let h' =
            lt-sub d law left d.zero l.qty ∙ ap (d.lt left) (zero_add d law l.qty) ∙ whole_lot in
          let k' =
            lt-sub_right d law (total ls) left l.qty
            ∙ ap (λ x. d.lt x left) (law.add_comm (total ls) l.qty)
            ∙ k in
          let ih = reduce_lots-total left' ls long.1 h' k' in
          rw (some_left, whole_lot)
            (ap (d.add (total (reduce_lots d left' ls))) (sym (law.sub-add left l.qty))
              ∙ sym (law.add_assoc (total (reduce_lots d left' ls)) left' l.qty)
              ∙ ap (λ x. d.add x l.qty) ih
              ∙ law.add_comm (total ls) l.qty)
      | inl part ↦
          let ih =
            reduce_lots-total d.zero ls long.1 (law.lt_irrefl d.zero) (total-least ls long.1) in
          let t = total (reduce_lots d d.zero ls) in
          rw (some_left, part)
            (swap d law (d.sub l.qty left) t left
              ∙ ap (λ x. d.add x t) (law.sub-add l.qty left)
              ∙ ap (d.add l.qty) (sym (law.add_zero t) ∙ ih))
    ]
  ]

  pub reduce_lots-sum_qty :
      (qty : d.Decimal) (ls : List (Lot d))
      → IsLong ls
      → Le d law d.zero qty
      → Le d law qty (sum_qty d ls)
      → d.add (sum_qty d (reduce_lots d qty ls)) qty ≡ sum_qty d ls
  reduce_lots-sum_qty qty ls long h k =
      rw (sum_qty-total (reduce_lots d qty ls), sum_qty-total ls)
        (reduce_lots-total qty ls long h (rw (← sum_qty-total ls) k))

  pub reduce_lots-IsLong :
      (left : d.Decimal) (ls : List (Lot d)) → IsLong ls → IsLong (reduce_lots d left ls)
  unfolding reduce_lots
  reduce_lots-IsLong left [] long = tt
  reduce_lots-IsLong left (l ∷ ls) long = elim (Bool-cases (d.lt d.zero left)) [
    | inr none_left ↦ rw none_left (long.0, reduce_lots-IsLong left ls long.1)
    | inl some_left ↦ elim (Bool-cases (d.lt left l.qty)) [
      | inr whole_lot ↦ rw (some_left, whole_lot) (reduce_lots-IsLong (d.sub left l.qty) ls long.1)
      | inl part ↦
          let rest =
            lt-sub d law l.qty d.zero left
            ∙ ap (d.lt l.qty) (zero_add d law left)
            ∙ Le_of_lt d law left l.qty part in
          rw (some_left, part) (rest, reduce_lots-IsLong d.zero ls long.1)
    ]
  ]

  -- A lot behind the others.
  pub sum_qty-append :
      (ls : List (Lot d)) (l : Lot d) → sum_qty d (ls ++ l ∷ []) ≡ d.add (sum_qty d ls) l.qty
  unfolding sum_from
  sum_qty-append ls l = append_from d.zero ls
    where
      append_from :
          (s : d.Decimal) (ls : List (Lot d))
          → sum_from d s (ls ++ l ∷ []) ≡ d.add (sum_from d s ls) l.qty
      append_from s [] = refl
      append_from s (x ∷ ls) = append_from (d.add s x.qty) ls

  sellable_from-Le :
      (today : String) (s : d.Decimal) (ls : List (Lot d))
      → IsLong ls
      → Le d law (sellable_from d today s ls) (d.add s (total ls))
  unfolding sellable_from
  sellable_from-Le today s [] long = rw (law.add_zero s) (law.lt_irrefl s)
  sellable_from-Le today s (l ∷ ls) long = elim (Bool-cases (date_le l.available today)) [
    | inl e ↦
        rw (e, ← law.add_assoc s l.qty (total ls))
          (sellable_from-Le today (d.add s l.qty) ls long.1)
    | inr e ↦
        let more =
          Le-add d law (total ls) (d.add l.qty (total ls)) s
            (Le-add_left d law l.qty (total ls) long.0) in
        let more' : Le d law (d.add s (total ls)) (d.add s (d.add l.qty (total ls))) =
          rw (law.add_comm s (total ls), law.add_comm s (d.add l.qty (total ls))) more in
        rw e (Le-trans d law _ _ _ (sellable_from-Le today s ls long.1) more')
  ]

  pub sellable-Le :
      (rule : TradingRule) (today : String) (ls : List (Lot d))
      → IsLong ls
      → Le d law (sellable d rule today ls) (sum_qty d ls)
  sellable-Le rule today ls long = elim (Bool-cases (is_zero d rule.t_plus)) [
    | inl e ↦ rw e (law.lt_irrefl (sum_qty d ls))
    | inr e ↦
        rw (e, sum_qty-total ls)
          (subst (Le d law (sellable_from d today d.zero ls)) (zero_add d law (total ls))
            (sellable_from-Le today d.zero ls long))
  ]

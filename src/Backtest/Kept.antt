-- ===== src/Backtest/Kept.antt =====
-- The invariants of the loop in Run of service/backtest/engine.go: what each step keeps, the loop
-- keeps.
use zhigu.Base.{
  ℕ, zero, suc, ◌+◌, ◌≡◌, refl, subst, inl, inr, Bool, true, false, List, if◌then◌else◌, Bool-cases,
  Result, ok, err, ltb, length, arith, take, ◌&&◌, not, String, ◌⊎◌, Decimals,
}
use zhigu.Indicators.Averages.{Bar, bar}
use zhigu.Indicators.Engine.{Series, compute_many}
use zhigu.Backtest.Actions.{causal_qfq, hit_risk}
use zhigu.Backtest.Ledger.{sum_qty}
use zhigu.Backtest.Days.{
  RunState, Setting, execute_pending, decide, signalled, exit_order, entry_order, try_entry,
  exit_met, entry_met, evaluate, run_day, run_days, note_equity, with_actions, is_causal, is_before,
  is_after,
}

pub if_both {ℓ κ} :
    {A : Type ℓ} (P : A → Type κ) (b : Bool) (x y : A) → P x → P y → P (if b then x else y)
if_both P true x y h k = h
if_both P false x y h k = k

-- The signals that ask for a sale.
abbrev pub IsExit : String → Type 0
IsExit prefix = (prefix ≡ "exit_") ⊎ (prefix ≡ "risk_")

module _ (d : Decimals) where
  abbrev pub time : Setting d → ℕ → String
  time g i = (bar d g.input.raw i).time

  -- `P i s` speaks of the state after the bars below i.
  pub record Keeping (g : Setting d) (P : ℕ → RunState d → Type 0) : Type 0 where
    pub morning : (i : ℕ) (s : RunState d) → P i s → P i (record s { sold_today = false })
    pub next : (i : ℕ) (s : RunState d) → P i s → P (suc i) s
    pub actions : (i : ℕ) (s : RunState d) → P i s → P i (with_actions d g i s)
    pub note : (i : ℕ) (day : Bar d) (s : RunState d) → P i s → P i (note_equity d day s)
    pub trade : (i : ℕ) (s : RunState d) → P i s → P (suc i) (execute_pending d g i s)
    pub exit :
        (i : ℕ) (kind prefix : String) (s : RunState d)
        → IsExit prefix
        → P (suc i) s
        → P (suc i) (signalled d kind (time g i) (exit_order d prefix (time g i)) s)
    pub entry :
        (i : ℕ) (s : RunState d)
        → d.eq (sum_qty d s.holdings.lots) d.zero ≡ true
        → P (suc i) s
        → P (suc i) (signalled d "entry" (time g i) (entry_order d g (time g i)) s)

  unfoldable pub IfOk : (RunState d → Type 0) → Result (RunState d) → Type 0
  IfOk P (ok s) = P s
  IfOk P (err _) = Unit {0}

  module _ (g : Setting d) (P : ℕ → RunState d → Type 0) (keep : Keeping g P) where
    module _ (i : ℕ) (bars : List (Bar d)) (series : List (Series d)) (s : RunState d)
        (h : P (suc i) s) where
      try_entry-P : P (suc i) (try_entry d g i bars series s)
      try_entry-P = elim (Bool-cases (d.eq (sum_qty d s.holdings.lots) d.zero)) [
        | inr e ↦ rw (try_entry, e) h
        | inl e ↦
            rw (try_entry, e)
              (if_both (P (suc i)) (not s.sold_today && entry_met d g i bars series)
                (signalled d "entry" (time g i) (entry_order d g (time g i)) s) s
                (keep.entry i s e h) h)
      ]

      decide-P : P (suc i) (decide d g i bars series s)
      unfolding decide
      decide-P =
          let held = d.lt d.zero (sum_qty d s.holdings.lots) in
          if_both (P (suc i))
            (held && hit_risk d g.input.doc s.holdings.lots (bar d g.input.raw i) s.holdings.recv) _
            _ (keep.exit i "risk_exit" "risk_" s (inr refl) h)
            (if_both (P (suc i)) (held && exit_met d g i bars series) _ _
              (keep.exit i "exit" "exit_" s (inl refl) h) try_entry-P)

    evaluate-IfOk : (i : ℕ) (s : RunState d) → P (suc i) s → IfOk (P (suc i)) (evaluate d g i s)
    unfolding evaluate IfOk
    evaluate-IfOk i s h =
        if_both (IfOk (P (suc i))) (is_causal d g.input && ltb 0 (length g.input.actions)) _ _
          (computed (compute_many d bars g.input.doc.indicators)) (decide-P i g.bars g.series s h)
      where
        bars : List (Bar d)
        bars = causal_qfq d (take (suc i) g.input.raw) g.input.actions (bar d g.input.raw i).time

        computed :
            (r : Result (List (Series d)))
            → IfOk (P (suc i)) (elim r as (λ _. Result (RunState d)) [
              | err e ↦ err e
              | ok series ↦ ok (decide d g i bars series s)
            ])
        computed (ok series) = decide-P i bars series s h
        computed (err e) = tt

    run_day-IfOk : (i : ℕ) (s : RunState d) → P i s → IfOk (P (suc i)) (run_day d g i s)
    unfolding run_day IfOk
    run_day-IfOk i s0 h =
        let s : RunState d = record s0 { sold_today = false } in
        let day = bar d g.input.raw i in
        let traded = execute_pending d g i (with_actions d g i s) in
        let morning = keep.morning i s0 h in
        let noted =
          keep.note (suc i) day traded
            (keep.trade i (with_actions d g i s) (keep.actions i s morning)) in
        if_both (IfOk (P (suc i))) (g.input.suspended day.time) _ _
          (keep.note (suc i) day s (keep.next i s morning))
          (if_both (IfOk (P (suc i))) (ltb i g.input.compiled.warmup_bars) _ _ noted
            (evaluate-IfOk i (note_equity d day traded) noted))

    next_all : (k i : ℕ) (s : RunState d) → P i s → P (i + k) s
    next_all zero i s h = subst (λ n. P n s) (omega arith) h
    next_all (suc k) i s h =
        subst (λ n. P n s) (omega arith) (next_all k (suc i) s (keep.next i s h))

    after_day :
        (rounds i : ℕ)
        → ((t : RunState d)
            → P (suc i) t
            → IfOk (P (i + suc rounds)) (run_days d g rounds (suc i) t))
        → (r : Result (RunState d)) → IfOk (P (suc i)) r
        → IfOk (P (i + suc rounds)) (elim r as (λ _. Result (RunState d)) [
          | err e ↦ err e
          | ok s' ↦ run_days d g rounds (suc i) s'
        ])
    unfolding IfOk
    after_day rounds i rest (ok s') k = rest s' k
    after_day rounds i rest (err e) k = tt

    stopped : (k i : ℕ) (s : RunState d) → P i s → IfOk (P (i + k)) (ok s)
    unfolding IfOk
    stopped k i s h = next_all k i s h

    pub run_days-IfOk :
        (rounds i : ℕ) (s : RunState d) → P i s → IfOk (P (i + rounds)) (run_days d g rounds i s)
    unfolding run_days
    run_days-IfOk zero i s h = stopped 0 i s h
    run_days-IfOk (suc rounds) i s h =
        let rest : (t : RunState d)
            → P (suc i) t
            → IfOk (P (i + suc rounds)) (run_days d g rounds (suc i) t) =
          λ t k.
            subst (λ n. IfOk (P n) (run_days d g rounds (suc i) t)) (omega arith)
              (run_days-IfOk rounds (suc i) t k) in
        elim (Bool-cases (is_before d g.input.config (bar d g.input.raw i).time)) [
          | inl e ↦
              rw (run_days, e)
                (rest (record s { sold_today = false }) (keep.next i _ (keep.morning i s h)))
          | inr e1 ↦ elim (Bool-cases (is_after d g.input.config (bar d g.input.raw i).time)) [
            | inl e ↦ rw (run_days, e1, e) (stopped (suc rounds) i s h)
            | inr e2 ↦
                rw (run_days, e1, e2)
                  (after_day rounds i rest (run_day d g i s) (run_day-IfOk i s h))
          ]
        ]

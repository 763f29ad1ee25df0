-- ===== src/Indicators/Causal/Oscillators.antt =====
-- The oscillators look at no later bar.
use mathlib.Core.List.{map-append}
use zhigu.Base.{
  ℕ, zero, suc, ◌+◌, ◌-◌, ◌≤◌, ◌<◌, ◌≡◌, refl, ap, ap₂, ◌∙◌, inl, inr, false, List, [], ◌∷◌, ◌++◌,
  map, length, length-map, length-append, ltb, leb, ◌==◌, ◌||◌, if◌then◌else◌, Bool-cases, arith,
  Decimals, abs, at, at-append, replicate, fold_range-cong, scan, scan-add, scan_quiet, Extends,
}
use zhigu.Indicators.Averages.{Bar, Point, nothing, value, bar, window, mean_of, sma_close}
use zhigu.Indicators.Oscillators.{
  lowest, highest, kdj_step, kdj, rsi_step, rsi, first_average, add_gain, add_loss, wr_step, wr,
  bias_of, biases, bias, typical_price, cci_step, cci, true_range, atr_step, atr, obv_step, obv,
  change,
}
use zhigu.Indicators.Causal.{
  all_bars, bar_same, scan_causal, quiet_causal, window_same, sma_close-Extends, sma_close-length,
}

module _ (d : Decimals) (xs ys : List (Bar d)) where
  lowest_same :
      (n i : ℕ) → i < length xs → n ≤ i + 1 → lowest d (all_bars d xs ys) n i ≡ lowest d xs n i
  lowest_same n i h le =
      rw
        (
          bar_same d xs ys i h,
          window_same d xs ys (λ b acc. if d.lt b.low acc then b.low else acc) n i (bar d xs i).low
              h le,
        )
        refl

  highest_same :
      (n i : ℕ) → i < length xs → n ≤ i + 1 → highest d (all_bars d xs ys) n i ≡ highest d xs n i
  highest_same n i h le =
      rw
        (
          bar_same d xs ys i h,
          window_same d xs ys (λ b acc. if d.lt acc b.high then b.high else acc) n i
              (bar d xs i).high h le,
        )
        refl

  kdj_step_same :
      (n m1 m2 i : ℕ) (s : d.Decimal × d.Decimal)
      → i < length xs
      → kdj_step d (all_bars d xs ys) n m1 m2 i s ≡ kdj_step d xs n m1 m2 i s
  kdj_step_same n m1 m2 i s h = elim (Bool-cases (ltb (i + 1) n)) [
    | inl e ↦ rw e refl
    | inr e ↦
        let le : n ≤ i + 1 = ground arith in
        let low = lowest_same n i h le in
        let high = highest_same n i h le in rw (e, low, high, bar_same d xs ys i h) refl
  ]

  pub kdj-Extends : (n m1 m2 : ℕ) → Extends (kdj d xs n m1 m2) (kdj d (all_bars d xs ys) n m1 m2)
  unfolding kdj
  kdj-Extends n m1 m2 = elim (Bool-cases (leb n 0 || leb m1 0 || leb m2 0)) [
    | inl e ↦ rw e (quiet_causal d xs ys _)
    | inr e ↦ rw e (
        scan_causal d xs ys (λ bars. kdj_step d bars n m1 m2) (d.of_nat 50, d.of_nat 50)
          (kdj_step_same n m1 m2))
  ]

  wr_step_same :
      (n i : ℕ) (u : Unit {0})
      → i < length xs
      → wr_step d (all_bars d xs ys) n i u ≡ wr_step d xs n i u
  wr_step_same n i u h = elim (Bool-cases (leb n (i + 1))) [
    | inr e ↦ rw e refl
    | inl e ↦
        let le : n ≤ i + 1 = ground arith in
        let low = lowest_same n i h le in
        let high = highest_same n i h le in rw (e, low, high, bar_same d xs ys i h) refl
  ]

  pub wr-Extends : (n : ℕ) → Extends (wr d xs n) (wr d (all_bars d xs ys) n)
  unfolding wr
  wr-Extends n = scan_causal d xs ys (λ bars. wr_step d bars n) tt (wr_step_same n)

  biases-Extends :
      (ps qs : List (Point d)) (bs cs : List (Bar d))
      → length ps ≡ length bs
      → Extends (biases d ps bs) (biases d (ps ++ qs) (bs ++ cs))
  biases-Extends [] qs [] cs h = (biases d qs cs, refl)
  biases-Extends [] qs (b ∷ bs) cs h = absurd (omega (arith, h))
  biases-Extends (p ∷ ps) qs [] cs h = absurd (omega (arith, h))
  biases-Extends (p ∷ ps) qs (b ∷ bs) cs h =
      let (us, e) = biases-Extends ps qs bs cs (omega (arith, h)) in
      (us, ap (λ t. bias_of d (value d p) b.close ∷ t) e)

  pub bias-Extends : (n : ℕ) → Extends (bias d xs n) (bias d (all_bars d xs ys) n)
  unfolding bias
  bias-Extends n =
      let (zs, e) = sma_close-Extends d xs ys n in
      let rows = biases-Extends (sma_close d xs n) zs xs ys (sma_close-length d xs ys xs n) in
      (rows.0, rw e rows.1)

  -- Nothing is written before n, and the array is shorter.
  late_causal {ℓ κ} :
      {S : Type ℓ} {A : Type κ} (step : List (Bar d) → ℕ → S → S × A) (s : S) (a : A) (n : ℕ)
      → ((i : ℕ) → i < n → step (all_bars d xs ys) i s ≡ (s, a))
      → length xs ≤ n
      → Extends
          (replicate (length xs) a)
          (scan (step (all_bars d xs ys)) (length (all_bars d xs ys)) 0 s)
  late_causal step s a n quiet short =
      let (zs, e) = scan-add (step (all_bars d xs ys)) (length xs) (length ys) 0 s in
      let q = scan_quiet (step (all_bars d xs ys)) a (length xs) 0 n s quiet (omega arith) in
      (zs, rw (length-append xs ys) (e ∙ ap (λ t. t ++ zs) q))

  change_same : (i : ℕ) → i < length xs → change d (all_bars d xs ys) i ≡ change d xs i
  change_same i h =
      ap₂ (λ b prev. d.sub b.close prev.close) (bar_same d xs ys i h)
        (bar_same d xs ys (i - 1) (omega arith))

  first_average_same :
      (body : d.Decimal → d.Decimal → d.Decimal) (n : ℕ)
      → n < length xs
      → first_average d body (all_bars d xs ys) n ≡ first_average d body xs n
  first_average_same body n h =
      ap (λ t. d.div t (d.of_nat n))
        (fold_range-cong _ _ n 1 (length xs) d.zero
          (λ j t lt. ap (λ c. body t c) (change_same j lt)) (omega arith))

  rsi_step_same :
      (n i : ℕ) (s : d.Decimal × d.Decimal)
      → i < length xs
      → rsi_step d (all_bars d xs ys) n i s ≡ rsi_step d xs n i s
  rsi_step_same n i s h = elim (Bool-cases (i == n)) [
    | inr e ↦ rw (e, change_same i h) refl
    | inl e ↦
        let lt : n < length xs = ground arith in
        rw (e, first_average_same (add_gain d) n lt, first_average_same (add_loss d) n lt) refl
  ]

  pub rsi-Extends : (n : ℕ) → Extends (rsi d xs n) (rsi d (all_bars d xs ys) n)
  unfolding rsi
  rsi-Extends n = elim (Bool-cases (ltb (length xs) (n + 1) || leb n 0)) [
    | inr e ↦
        let e' : (ltb (length (all_bars d xs ys)) (n + 1) || leb n 0) ≡ false =
          ground (arith, length-append xs ys) in
        rw (e, e')
          (scan_causal d xs ys (λ bars. rsi_step d bars n) (d.zero, d.zero) (rsi_step_same n))
    | inl e ↦ elim (Bool-cases (ltb (length (all_bars d xs ys)) (n + 1) || leb n 0)) [
      | inl e' ↦ rw (e, e') (quiet_causal d xs ys (nothing d))
      | inr e' ↦
          rw (e, e')
            (late_causal (λ bars. rsi_step d bars n) (d.zero, d.zero) (nothing d) n
              (λ i lt. ground arith) (ground arith))
    ]
  ]

  true_range_same : (i : ℕ) → i < length xs → true_range d (all_bars d xs ys) i ≡ true_range d xs i
  true_range_same zero h = ap (λ b. d.sub b.high b.low) (bar_same d xs ys 0 h)
  true_range_same (suc i) h = rw (bar_same d xs ys (suc i) h, bar_same d xs ys i (omega arith)) refl

  atr_step_same :
      (n i : ℕ) (avg : d.Decimal)
      → i < length xs
      → atr_step d (all_bars d xs ys) n i avg ≡ atr_step d xs n i avg
  atr_step_same n i avg h = elim (Bool-cases (i + 1 == n)) [
    | inr e ↦ rw (e, true_range_same i h) refl
    | inl e ↦
        let sums =
          fold_range-cong (λ j sum. d.add sum (true_range d (all_bars d xs ys) j))
            (λ j sum. d.add sum (true_range d xs j)) n 0 (length xs) d.zero
            (λ j t lt. ap (λ c. d.add t c) (true_range_same j lt)) (ground arith) in
        rw (e, sums) refl
  ]

  pub atr-Extends : (n : ℕ) → Extends (atr d xs n) (atr d (all_bars d xs ys) n)
  unfolding atr
  atr-Extends n = elim (Bool-cases (length xs == 0 || leb n 0 || ltb (length xs) n)) [
    | inr e ↦
        let e' : (length (all_bars d xs ys) == 0 || leb n 0 || ltb (length (all_bars d xs ys)) n)
            ≡ false =
          ground (arith, length-append xs ys) in
        rw (e, e') (scan_causal d xs ys (λ bars. atr_step d bars n) d.zero (atr_step_same n))
    | inl e ↦
        elim (Bool-cases
          (length (all_bars d xs ys) == 0 || leb n 0 || ltb (length (all_bars d xs ys)) n)) [
            | inl e' ↦ rw (e, e') (quiet_causal d xs ys (nothing d))
            | inr e' ↦
                rw (e, e')
                  (late_causal (λ bars. atr_step d bars n) d.zero (nothing d) (n - 1)
                    (λ i lt. ground arith) (ground arith))
          ]
  ]

  obv_step_same :
      (i : ℕ) (cur : d.Decimal)
      → i < length xs
      → obv_step d (all_bars d xs ys) i cur ≡ obv_step d xs i cur
  obv_step_same zero cur h = refl
  obv_step_same (suc i) cur h =
      rw (bar_same d xs ys (suc i) h, bar_same d xs ys (suc i - 1) (omega arith)) refl

  pub obv-Extends : Extends (obv d xs) (obv d (all_bars d xs ys))
  unfolding obv
  obv-Extends = scan_causal d xs ys (obv_step d) d.zero obv_step_same

  tp_same :
      (i : ℕ)
      → i < length xs
      → at d.zero (map (typical_price d) (all_bars d xs ys)) i
        ≡ at d.zero (map (typical_price d) xs) i
  tp_same i h =
      ap (λ t. at d.zero t i) (map-append (typical_price d) xs ys)
      ∙ at-append d.zero (map (typical_price d) xs) (map (typical_price d) ys) i
          (rw (length-map (typical_price d) xs) h)

  cci_window_same :
      (body : d.Decimal → d.Decimal) (n i : ℕ)
      → i < length xs
      → n ≤ i + 1
      → window d
          (λ acc j. d.add acc (body (at d.zero (map (typical_price d) (all_bars d xs ys)) j)))
          n
          i
          d.zero
        ≡ window d (λ acc j. d.add acc (body (at d.zero (map (typical_price d) xs) j))) n i d.zero
  cci_window_same body n i h le =
      fold_range-cong _ _ n (i + 1 - n) (length xs) d.zero
        (λ j t lt. ap (λ c. d.add t (body c)) (tp_same j lt)) (omega arith)

  cci_step_same :
      (n i : ℕ) (u : Unit {0})
      → i < length xs
      → cci_step d (map (typical_price d) (all_bars d xs ys)) n i u
        ≡ cci_step d (map (typical_price d) xs) n i u
  cci_step_same n i u h = elim (Bool-cases (leb n (i + 1))) [
    | inr e ↦ rw e refl
    | inl e ↦
        let le : n ≤ i + 1 = ground arith in
        let sums = cci_window_same (λ x. x) n i h le in
        let mean =
          mean_of d
            (window d (λ acc j. d.add acc (at d.zero (map (typical_price d) xs) j)) n i d.zero) n in
        let devs = cci_window_same (λ x. abs d (d.sub x mean)) n i h le in
        rw (e, sums, devs, tp_same i h) refl
  ]

  pub cci-Extends : (n : ℕ) → Extends (cci d xs n) (cci d (all_bars d xs ys) n)
  unfolding cci
  cci-Extends n =
      scan_causal d xs ys (λ bars. cci_step d (map (typical_price d) bars) n) tt (cci_step_same n)

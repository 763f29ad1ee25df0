-- ===== src/Indicators/Warmup.antt =====
-- From which bar on the averages and the oscillators are ready.
pub mod Differences
use zhigu.Base.{
  ℕ, zero, suc, ◌+◌, ◌-◌, ◌≤◌, ◌<◌, ◌≡◌, refl, ap, ◌∙◌, sym, inl, inr, Bool, true, false, Option,
  none, some, List, [], ◌∷◌, map, length, ltb, leb, ◌==◌, ◌||◌, if◌then◌else◌, Bool-cases, is_null,
  arith, Decimals, scan, scan-AllFrom, AllFrom, AllFrom-map, replicate-AllFrom, replicate,
}
use zhigu.Indicators.Averages.{
  Bar, Value, Point, nothing, value, is_ready, Bands, sma_step, sma_close, ema_step, ema_close,
  ema_series, boll_step, boll, vol_step, vol_series, differences, difference, macd_rows, macd_at,
  macd, smoothed, rounded,
}
use zhigu.Indicators.Oscillators.{
  kdj_step, kdj, rsi_step, rsi, wr_step, wr, bias_of, biases, bias, cci_step, cci_at, cci, atr_step,
  atr, obv_step, obv, typical_price,
}

module _ (d : Decimals) where
  -- The entry at i is ready exactly from the warmup on, and then its values are there.
  abbrev pub WarmPoint : ℕ → ℕ → Point d → Type 0
  WarmPoint w i p =
      (is_ready d p ≡ leb w (i + 1)) × (leb w (i + 1) ≡ true → is_null (value d p) ≡ false)

  abbrev pub WarmBands : ℕ → ℕ → Bands d → Type 0
  WarmBands w i r =
      (r.3 ≡ leb w (i + 1))
      × (leb w (i + 1) ≡ true
          → (is_null r.0 ≡ false) × (is_null r.1 ≡ false) × (is_null r.2 ≡ false))

  above_zero : (n : ℕ) → 0 < n → leb n 0 ≡ false
  above_zero n pos = ground arith

  module _ (bars : List (Bar d)) where
    pub sma_close-Warm : (n : ℕ) → 0 < n → AllFrom (WarmPoint n) 0 (sma_close d bars n)
    unfolding sma_close
    sma_close-Warm n pos = rw (above_zero n pos) (
        scan-AllFrom (WarmPoint n) (sma_step d bars n) (length bars) 0 d.zero
          (λ i s. (ground arith, λ h. ground arith)))

    ema_step-Warm : (n i : ℕ) (s : d.Decimal) → 2 ≤ n → WarmPoint n i (ema_step d bars n i s).1
    ema_step-Warm n zero s two = (ground arith, λ h. ground arith)
    ema_step-Warm n (suc i) s two = (ground arith, λ h. ground arith)

    pub ema_close-Warm : (n : ℕ) → 2 ≤ n → AllFrom (WarmPoint n) 0 (ema_close d bars n)
    unfolding ema_close
    ema_close-Warm n two = rw (above_zero n (omega arith)) (
        scan-AllFrom (WarmPoint n) (ema_step d bars n) (length bars) 0 d.zero
          (λ i s. ema_step-Warm n i s two))

    pub boll-Warm : (n k : ℕ) → 0 < n → AllFrom (WarmBands n) 0 (boll d bars n k)
    unfolding boll
    boll-Warm n k pos = rw (above_zero n pos) (
        scan-AllFrom (WarmBands n) (boll_step d bars n k) (length bars) 0 tt
          (λ i s. (ground arith, λ h. (ground arith, ground arith, ground arith))))

    pub vol_series-Warm :
        (n m w : ℕ)
        → w ≡ (if ltb n m then m else n)
        → AllFrom (WarmBands w) 0 (vol_series d bars n m)
    unfolding vol_series
    vol_series-Warm n m w e =
        scan-AllFrom (WarmBands w) (vol_step d bars n m) (length bars) 0 (d.zero, d.zero)
          (λ i s. (ground arith, λ h. (refl, ground arith, ground arith)))

    pub kdj-Warm :
        (n m1 m2 : ℕ) → 0 < n → 0 < m1 → 0 < m2 → AllFrom (WarmBands n) 0 (kdj d bars n m1 m2)
    unfolding kdj
    kdj-Warm n m1 m2 p q r =
        rw (above_zero n p, above_zero m1 q, above_zero m2 r)
          (scan-AllFrom (WarmBands n) (kdj_step d bars n m1 m2) (length bars) 0
            (d.of_nat 50, d.of_nat 50)
            (λ i s. (ground arith, λ h. (ground arith, ground arith, ground arith))))

    pub rsi-Warm : (n : ℕ) → 0 < n → AllFrom (WarmPoint (n + 1)) 0 (rsi d bars n)
    unfolding rsi
    rsi-Warm n pos = elim (Bool-cases (ltb (length bars) (n + 1) || leb n 0)) [
      | inl e ↦ rw e (
          replicate-AllFrom (WarmPoint (n + 1)) (nothing d) (length bars) 0 n
            (λ j lt. (ground arith, λ h. absurd (ground arith))) (ground arith))
      | inr e ↦ rw e (
          scan-AllFrom (WarmPoint (n + 1)) (rsi_step d bars n) (length bars) 0 (d.zero, d.zero)
            (λ i s. (ground arith, λ h. ground arith)))
    ]

    pub wr-Warm : (n : ℕ) → AllFrom (WarmPoint n) 0 (wr d bars n)
    unfolding wr
    wr-Warm n =
        scan-AllFrom (WarmPoint n) (wr_step d bars n) (length bars) 0 tt
          (λ i s. (ground arith, λ h. ground arith))

    cci_at-Warm :
        (tp : List d.Decimal) (n i : ℕ)
        → (is_ready d (cci_at d tp n i) ≡ true) × (is_null (value d (cci_at d tp n i)) ≡ false)
    cci_at-Warm tp n i = (ground arith, ground arith)

    pub cci-Warm : (n : ℕ) → AllFrom (WarmPoint n) 0 (cci d bars n)
    unfolding cci
    cci-Warm n =
        scan-AllFrom (WarmPoint n) (cci_step d (map (typical_price d) bars) n) (length bars) 0 tt
          (λ i s. (ground arith, λ h. ground arith))

    pub atr-Warm : (n : ℕ) → 0 < n → AllFrom (WarmPoint n) 0 (atr d bars n)
    unfolding atr
    atr-Warm n pos = elim (Bool-cases (length bars == 0 || leb n 0 || ltb (length bars) n)) [
      | inl e ↦ rw e (
          replicate-AllFrom (WarmPoint n) (nothing d) (length bars) 0 (n - 1)
            (λ j lt. (ground arith, λ h. absurd (ground arith))) (ground arith))
      | inr e ↦ rw e (
          scan-AllFrom (WarmPoint n) (atr_step d bars n) (length bars) 0 d.zero
            (λ i s. (ground arith, λ h. ground arith)))
    ]

    obv_step-Warm : (i : ℕ) (s : d.Decimal) → WarmPoint 2 i (obv_step d bars i s).1
    obv_step-Warm zero s = (refl, λ h. refl)
    obv_step-Warm (suc i) s = (ground arith, λ h. refl)

    pub obv-Warm : AllFrom (WarmPoint 2) 0 (obv d bars)
    unfolding obv
    obv-Warm = scan-AllFrom (WarmPoint 2) (obv_step d bars) (length bars) 0 d.zero obv_step-Warm

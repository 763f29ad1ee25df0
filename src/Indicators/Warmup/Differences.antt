-- ===== src/Indicators/Warmup/Differences.antt =====
-- From which bar on MACD and BIAS are ready, which are computed from series of averages.
use zhigu.Base.{
  ℕ, zero, suc, ◌+◌, ◌-◌, ◌<◌, ◌≡◌, refl, true, false, Option, none, some, List, [], ◌∷◌, length,
  leb, is_null, arith, Decimals, scan-AllFrom, AllFrom, All,
}
use zhigu.Indicators.Averages.{
  Bar, Value, Point, value, is_ready, ema_step, ema_close, ema_series, differences, difference,
  macd_rows, macd_at, macd, smoothed, sma_close, sma_step,
}
use zhigu.Indicators.Oscillators.{bias_of, biases, bias}
use zhigu.Indicators.Warmup.{WarmBands, above_zero}

module _ (d : Decimals) where
  abbrev IsKnown : Value d → Type 0
  IsKnown v = is_null v ≡ false

  ema_step-IsKnown :
      (bars : List (Bar d)) (n i : ℕ) (s : d.Decimal) → IsKnown (value d (ema_step d bars n i s).1)
  ema_step-IsKnown bars n zero s = refl
  ema_step-IsKnown bars n (suc i) s = refl

  ema_close-IsKnown :
      (bars : List (Bar d)) (n : ℕ)
      → 0 < n
      → AllFrom (λ i p. IsKnown (value d p)) 0 (ema_close d bars n)
  unfolding ema_close
  ema_close-IsKnown bars n pos = rw (above_zero d n pos) (
      scan-AllFrom (λ i p. IsKnown (value d p)) (ema_step d bars n) (length bars) 0 d.zero
        (ema_step-IsKnown bars n))

  difference-IsKnown :
      (p q : Point d) → IsKnown (value d p) → IsKnown (value d q) → IsKnown (difference d p q)
  difference-IsKnown (none, _) q h k = cc
  difference-IsKnown (some f, _) (none, _) h k = cc
  difference-IsKnown (some f, _) (some s, _) h k = refl

  differences-IsKnown :
      (ps qs : List (Point d)) (i : ℕ)
      → AllFrom (λ i p. IsKnown (value d p)) i ps
      → AllFrom (λ i p. IsKnown (value d p)) i qs
      → All IsKnown (differences d ps qs)
  differences-IsKnown [] qs i h k = tt
  differences-IsKnown (p ∷ ps) [] i h k = tt
  differences-IsKnown (p ∷ ps) (q ∷ qs) i h k =
      (difference-IsKnown p q h.0 k.0, differences-IsKnown ps qs (suc i) h.1 k.1)

  ema_series-IsKnown :
      (n : ℕ) (ema : Option d.Decimal) (vs : List (Value d))
      → All IsKnown vs
      → All IsKnown (ema_series d n ema vs)
  unfolding ema_series
  ema_series-IsKnown n ema [] h = tt
  ema_series-IsKnown n ema (none ∷ vs) h = absurd (cc)
  ema_series-IsKnown n none (some v ∷ vs) h = (refl, ema_series-IsKnown n (some v) vs h.1)
  ema_series-IsKnown n (some ema) (some v ∷ vs) h =
      (refl, ema_series-IsKnown n (some (smoothed d n ema v)) vs h.1)

  macd_at-Warm :
      (w i : ℕ) (p q : Value d) → IsKnown p → IsKnown q → WarmBands d w i (macd_at d w i p q)
  macd_at-Warm w i none q h k = absurd (cc)
  macd_at-Warm w i (some p) none h k = absurd (cc)
  macd_at-Warm w i (some p) (some q) h k = (refl, λ _. (refl, refl, refl))

  macd_rows-Warm :
      (w i : ℕ) (ps qs : List (Value d))
      → All IsKnown ps
      → All IsKnown qs
      → AllFrom (WarmBands d w) i (macd_rows d w i ps qs)
  macd_rows-Warm w i [] qs h k = tt
  macd_rows-Warm w i (p ∷ ps) [] h k = tt
  macd_rows-Warm w i (p ∷ ps) (q ∷ qs) h k =
      (macd_at-Warm w i p q h.0 k.0, macd_rows-Warm w (suc i) ps qs h.1 k.1)

  pub macd-Warm :
      (bars : List (Bar d)) (f s m : ℕ)
      → 0 < f
      → 0 < s
      → AllFrom (WarmBands d (s + m - 1)) 0 (macd d bars f s m)
  unfolding macd
  macd-Warm bars f s m hf hs =
      let dif =
        differences-IsKnown (ema_close d bars f) (ema_close d bars s) 0
          (ema_close-IsKnown bars f hf) (ema_close-IsKnown bars s hs) in
      macd_rows-Warm (s + m - 1) 0 _ _ dif (ema_series-IsKnown m none _ dif)

  -- BIAS is never ready before the warmup, nor without a value; it is not ready at an average of 0.
  abbrev pub Tame : ℕ → ℕ → Point d → Type 0
  Tame w i p = is_ready d p ≡ true → (leb w (i + 1) ≡ true) × (is_null (value d p) ≡ false)

  sma_close-reached :
      (bars : List (Bar d)) (n : ℕ)
      → 0 < n
      → AllFrom (λ j p. is_null (value d p) ≡ false → leb n (j + 1) ≡ true) 0 (sma_close d bars n)
  unfolding sma_close
  sma_close-reached bars n pos = rw (above_zero d n pos) (
      scan-AllFrom (λ j p. is_null (value d p) ≡ false → leb n (j + 1) ≡ true) (sma_step d bars n)
        (length bars) 0 d.zero (λ i s h. ground arith))

  biases-Tame :
      (n i : ℕ) (ps : List (Point d)) (bars : List (Bar d))
      → AllFrom (λ j p. is_null (value d p) ≡ false → leb n (j + 1) ≡ true) i ps
      → AllFrom (Tame n) i (biases d ps bars)
  biases-Tame n i [] bars h = tt
  biases-Tame n i (p ∷ ps) [] h = tt
  biases-Tame n i (p ∷ ps) (b ∷ bars) h =
      (bias_of-Tame n i (value d p) b.close h.0, biases-Tame n (suc i) ps bars h.1)
    where
      bias_of-Tame :
          (n i : ℕ) (v : Value d) (close : d.Decimal)
          → (is_null v ≡ false → leb n (i + 1) ≡ true)
          → Tame n i (bias_of d v close)
      bias_of-Tame n i none close h ready = cc
      bias_of-Tame n i (some sma) close h ready = (h refl, ground arith)

  pub bias-Tame : (bars : List (Bar d)) (n : ℕ) → 0 < n → AllFrom (Tame n) 0 (bias d bars n)
  unfolding bias
  bias-Tame bars n pos = biases-Tame n 0 (sma_close d bars n) bars (sma_close-reached bars n pos)

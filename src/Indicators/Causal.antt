-- ===== src/Indicators/Causal.antt =====
-- What a loop over the bars writes does not depend on the bars after them.
pub mod Oscillators
use native.Mathlib.Nat.{zero-add, suc-add}
use mathlib.Core.List.{map-append}
use zhigu.Base.{
  ℕ, zero, suc, ◌+◌, ◌-◌, ◌≤◌, ◌<◌, ◌≡◌, refl, ap, ap₂, ◌∙◌, sym, inl, inr, Bool, true, false,
  Option, none, some, List, [], ◌∷◌, ◌++◌, map, length, length-append, ltb, leb, ◌==◌, ◌||◌,
  if◌then◌else◌, Bool-cases, arith, Decimals, at, at-append, at-Extends, replicate, fold_range,
  fold_range-cong, scan, scan-Extends, scan_quiet, length-scan, length-replicate, Extends,
  Extends-map,
}
use zhigu.Indicators.Averages.{
  Bar, Value, Point, nothing, value, bar, no_bar, window, Bands, sma_step, sma_close, ema_step,
  ema_close, ema_series, boll_step, boll_at, boll, vol_step, vol_series, differences, difference,
  macd_rows, macd_at, macd, smoothed, rounded, moving_sum, deviation, mean_of,
}

pub replicate-Extends {ℓ} :
    {A : Type ℓ} (k m : ℕ) (a : A) → Extends (replicate k a) (replicate (k + m) a)
replicate-Extends zero m a = (replicate m a, rw (zero-add m))
replicate-Extends (suc k) m a =
    let (zs, e) = replicate-Extends k m a in (zs, rw (suc-add k m) (ap (λ t. a ∷ t) e))

module _ (d : Decimals) (xs ys : List (Bar d)) where
  abbrev pub all_bars : List (Bar d)
  all_bars = xs ++ ys

  pub bar_same : (i : ℕ) → i < length xs → bar d all_bars i ≡ bar d xs i
  bar_same i h = at-append (no_bar d) xs ys i h

  pub scan_causal {ℓ κ} :
      {S : Type ℓ} {A : Type κ} (step : List (Bar d) → ℕ → S → S × A) (s : S)
      → ((i : ℕ) (t : S) → i < length xs → step all_bars i t ≡ step xs i t)
      → Extends (scan (step xs) (length xs) 0 s) (scan (step all_bars) (length all_bars) 0 s)
  scan_causal step s same =
      rw (length-append xs ys)
        (scan-Extends (step xs) (step all_bars) (length xs) (length ys) s same)

  pub quiet_causal {ℓ} :
      {A : Type ℓ} (a : A) → Extends (replicate (length xs) a) (replicate (length all_bars) a)
  quiet_causal a = rw (length-append xs ys) (replicate-Extends (length xs) (length ys) a)

  moving_sum_same :
      (entry : Bar d → d.Decimal) (n i : ℕ) (sum : d.Decimal)
      → i < length xs
      → moving_sum d (λ j. entry (bar d all_bars j)) n i sum
        ≡ moving_sum d (λ j. entry (bar d xs j)) n i sum
  moving_sum_same entry n i sum h = rw (bar_same i h, bar_same (i - n) (omega arith)) refl

  pub window_same :
      (body : Bar d → d.Decimal → d.Decimal) (n i : ℕ) (start : d.Decimal)
      → i < length xs
      → n ≤ i + 1
      → window d (λ acc j. body (bar d all_bars j) acc) n i start
        ≡ window d (λ acc j. body (bar d xs j) acc) n i start
  window_same body n i start h le =
      fold_range-cong _ _ n (i + 1 - n) (length xs) start
        (λ j t lt. ap (λ b. body b t) (bar_same j lt)) (omega arith)

  pub sma_close-Extends : (n : ℕ) → Extends (sma_close d xs n) (sma_close d all_bars n)
  unfolding sma_close
  sma_close-Extends n = elim (Bool-cases (leb n 0)) [
    | inl e ↦ rw e (quiet_causal (nothing d))
    | inr e ↦ rw e (
        scan_causal (λ bars. sma_step d bars n) d.zero
          (λ i sum h. rw (moving_sum_same (λ b. b.close) n i sum h) refl))
  ]

  ema_step_same :
      (n i : ℕ) (ema : d.Decimal)
      → i < length xs
      → ema_step d all_bars n i ema ≡ ema_step d xs n i ema
  ema_step_same n zero ema h = rw (bar_same 0 h) refl
  ema_step_same n (suc i) ema h = rw (bar_same (suc i) h) refl

  pub ema_close-Extends : (n : ℕ) → Extends (ema_close d xs n) (ema_close d all_bars n)
  unfolding ema_close
  ema_close-Extends n = elim (Bool-cases (leb n 0)) [
    | inl e ↦ rw e (quiet_causal (nothing d))
    | inr e ↦ rw e (scan_causal (λ bars. ema_step d bars n) d.zero (ema_step_same n))
  ]

  boll_step_same :
      (n k i : ℕ) (u : Unit {0})
      → i < length xs
      → boll_step d all_bars n k i u ≡ boll_step d xs n k i u
  boll_step_same n k i u h = elim (Bool-cases (leb n (i + 1))) [
    | inr e ↦ rw e refl
    | inl e ↦
        let le : n ≤ i + 1 = ground arith in
        let sums = window_same (λ b acc. d.add acc b.close) n i d.zero h le in
        let mean = mean_of d (window d (λ acc j. d.add acc (bar d xs j).close) n i d.zero) n in
        let devs = window_same (λ b acc. d.add acc (deviation d mean b.close)) n i d.zero h le in
        rw (e, sums, devs) refl
  ]

  pub boll-Extends : (n k : ℕ) → Extends (boll d xs n k) (boll d all_bars n k)
  unfolding boll
  boll-Extends n k = elim (Bool-cases (leb n 0)) [
    | inl e ↦ rw e (quiet_causal _)
    | inr e ↦ rw e (scan_causal (λ bars. boll_step d bars n k) tt (boll_step_same n k))
  ]

  pub vol_series-Extends : (n m : ℕ) → Extends (vol_series d xs n m) (vol_series d all_bars n m)
  unfolding vol_series
  vol_series-Extends n m =
      scan_causal (λ bars. vol_step d bars n m) (d.zero, d.zero)
        (λ i s h.
          rw
            (
              moving_sum_same (λ b. b.volume) n i s.0 h,
              moving_sum_same (λ b. b.volume) m i s.1 h,
              bar_same i h,
            )
            refl)

  pub ema_close-length : (bars : List (Bar d)) (n : ℕ) → length (ema_close d bars n) ≡ length bars
  unfolding ema_close
  ema_close-length bars n = elim (Bool-cases (leb n 0)) [
    | inl e ↦ rw e (length-replicate (length bars) (nothing d))
    | inr e ↦ rw e (length-scan (ema_step d bars n) (length bars) 0 d.zero)
  ]

  pub sma_close-length : (bars : List (Bar d)) (n : ℕ) → length (sma_close d bars n) ≡ length bars
  unfolding sma_close
  sma_close-length bars n = elim (Bool-cases (leb n 0)) [
    | inl e ↦ rw e (length-replicate (length bars) (nothing d))
    | inr e ↦ rw e (length-scan (sma_step d bars n) (length bars) 0 d.zero)
  ]

  differences-Extends :
      (ps qs zs ws : List (Point d))
      → length ps ≡ length qs
      → Extends (differences d ps qs) (differences d (ps ++ zs) (qs ++ ws))
  differences-Extends [] [] zs ws h = (differences d zs ws, refl)
  differences-Extends [] (q ∷ qs) zs ws h = absurd (omega (arith, h))
  differences-Extends (p ∷ ps) [] zs ws h = absurd (omega (arith, h))
  differences-Extends (p ∷ ps) (q ∷ qs) zs ws h =
      let (us, e) = differences-Extends ps qs zs ws (omega (arith, h)) in
      (us, ap (λ t. difference d p q ∷ t) e)

  ema_series-Extends :
      (n : ℕ) (ema : Option d.Decimal) (vs ws : List (Value d))
      → Extends (ema_series d n ema vs) (ema_series d n ema (vs ++ ws))
  unfolding ema_series
  ema_series-Extends n ema [] ws = (ema_series d n ema ws, refl)
  ema_series-Extends n ema (none ∷ vs) ws =
      let (us, e) = ema_series-Extends n ema vs ws in (us, ap (λ t. none ∷ t) e)
  ema_series-Extends n none (some v ∷ vs) ws =
      let (us, e) = ema_series-Extends n (some v) vs ws in (us, ap (λ t. some (rounded d v) ∷ t) e)
  ema_series-Extends n (some ema) (some v ∷ vs) ws =
      let (us, e) = ema_series-Extends n (some (smoothed d n ema v)) vs ws in
      (us, ap (λ t. some (smoothed d n ema v) ∷ t) e)

  pub length-ema_series :
      (n : ℕ) (ema : Option d.Decimal) (vs : List (Value d))
      → length (ema_series d n ema vs) ≡ length vs
  unfolding ema_series
  length-ema_series n ema [] = refl
  length-ema_series n ema (none ∷ vs) = ap suc (length-ema_series n ema vs)
  length-ema_series n none (some v ∷ vs) = ap suc (length-ema_series n (some v) vs)
  length-ema_series n (some ema) (some v ∷ vs) =
      ap suc (length-ema_series n (some (smoothed d n ema v)) vs)

  macd_rows-Extends :
      (warmup i : ℕ) (ps qs zs ws : List (Value d))
      → length ps ≡ length qs
      → Extends (macd_rows d warmup i ps qs) (macd_rows d warmup i (ps ++ zs) (qs ++ ws))
  macd_rows-Extends warmup i [] [] zs ws h = (macd_rows d warmup i zs ws, refl)
  macd_rows-Extends warmup i [] (q ∷ qs) zs ws h = absurd (omega (arith, h))
  macd_rows-Extends warmup i (p ∷ ps) [] zs ws h = absurd (omega (arith, h))
  macd_rows-Extends warmup i (p ∷ ps) (q ∷ qs) zs ws h =
      let (us, e) = macd_rows-Extends warmup (suc i) ps qs zs ws (omega (arith, h)) in
      (us, ap (λ t. macd_at d warmup i p q ∷ t) e)

  pub macd-Extends : (f s m : ℕ) → Extends (macd d xs f s m) (macd d all_bars f s m)
  unfolding macd
  macd-Extends f s m =
      let (zs, e) = ema_close-Extends f in
      let (ws, e') = ema_close-Extends s in
      let same = ema_close-length xs f ∙ sym (ema_close-length xs s) in
      let (us, q) = differences-Extends (ema_close d xs f) (ema_close d xs s) zs ws same in
      let dif = differences d (ema_close d xs f) (ema_close d xs s) in
      let (vs, r) = ema_series-Extends m none dif us in
      let rows =
        macd_rows-Extends (s + m - 1) 0 dif (ema_series d m none dif) us vs
          (sym (length-ema_series m none dif)) in
      (rows.0, rw (e, e', q, r) rows.1)

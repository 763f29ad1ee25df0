-- ===== src/Indicators/Lengths.antt =====
-- A series has one entry for each bar.
use zhigu.Base.{
  ℕ, suc, ◌+◌, ◌-◌, ◌≡◌, refl, ap, ◌∙◌, sym, Bool, true, false, none, List, [], ◌∷◌, map, length,
  length-map, length-replicate, if◌then◌else◌, arith, Decimals, scan, length-scan, replicate,
}
use zhigu.Indicators.Averages.{
  Bar, Value, Point, is_ready, Bands, sma_close, ema_close, ema_series, boll, vol_series,
  differences, macd_rows, macd,
}
use zhigu.Indicators.Oscillators.{kdj, rsi, wr, biases, bias, cci, atr, obv}
use zhigu.Indicators.Registry.{Kind, Params}
use zhigu.Indicators.Engine.{table_of}
use zhigu.Indicators.Causal.{sma_close-length, ema_close-length, length-ema_series}

module _ (d : Decimals) (bars : List (Bar d)) where
  abbrev HasLength {ℓ} : {A : Type ℓ} → List A → Type 0
  HasLength xs = length xs ≡ length bars

  -- A loop over the bars behind a test.
  guarded {ℓ κ} :
      {S : Type ℓ} {A : Type κ} (test : Bool) (a : A) (step : ℕ → S → S × A) (s : S)
      → HasLength (if test then replicate (length bars) a else scan step (length bars) 0 s)
  guarded true a step s = length-replicate (length bars) a
  guarded false a step s = length-scan step (length bars) 0 s

  length-differences :
      (ps qs : List (Point d)) → length ps ≡ length qs → length (differences d ps qs) ≡ length ps
  length-differences [] qs h = refl
  length-differences (p ∷ ps) [] h = absurd (omega (arith, h))
  length-differences (p ∷ ps) (q ∷ qs) h = ap suc (length-differences ps qs (omega (arith, h)))

  length-macd_rows :
      (w i : ℕ) (ps qs : List (Value d))
      → length ps ≡ length qs
      → length (macd_rows d w i ps qs) ≡ length ps
  length-macd_rows w i [] qs h = refl
  length-macd_rows w i (p ∷ ps) [] h = absurd (omega (arith, h))
  length-macd_rows w i (p ∷ ps) (q ∷ qs) h =
      ap suc (length-macd_rows w (suc i) ps qs (omega (arith, h)))

  macd-length : (f s m : ℕ) → HasLength (macd d bars f s m)
  unfolding macd
  macd-length f s m =
      let lf = ema_close-length d bars bars bars f in
      let ls = ema_close-length d bars bars bars s in
      let dif = differences d (ema_close d bars f) (ema_close d bars s) in
      length-macd_rows (s + m - 1) 0 dif (ema_series d m none dif)
        (sym (length-ema_series d bars bars m none dif))
      ∙ length-differences (ema_close d bars f) (ema_close d bars s) (lf ∙ sym ls)
      ∙ lf

  length-biases :
      (ps : List (Point d)) (bs : List (Bar d))
      → length ps ≡ length bs
      → length (biases d ps bs) ≡ length bs
  length-biases [] [] h = refl
  length-biases [] (b ∷ bs) h = h
  length-biases (p ∷ ps) [] h = refl
  length-biases (p ∷ ps) (b ∷ bs) h = ap suc (length-biases ps bs (omega (arith, h)))

  bias-length : (n : ℕ) → HasLength (bias d bars n)
  unfolding bias
  bias-length n = length-biases (sma_close d bars n) bars (sma_close-length d bars bars bars n)

  abbrev ready_point : (ps : List (Point d)) → HasLength ps → HasLength (map (is_ready d) ps)
  ready_point ps h = length-map (is_ready d) ps ∙ h

  abbrev ready_bands :
      (rs : List (Bands d)) → HasLength rs → HasLength (map (λ (r : Bands d). r.3) rs)
  ready_bands rs h = length-map (λ (r : Bands d). r.3) rs ∙ h

  pub table_of-length : (kind : Kind) (ps : Params) → HasLength (table_of d bars kind ps).ready
  unfolding table_of boll vol_series kdj rsi wr cci atr obv
  table_of-length Kind.ma ps = ready_point _ (sma_close-length d bars bars bars _)
  table_of-length Kind.ema ps = ready_point _ (ema_close-length d bars bars bars _)
  table_of-length Kind.boll ps = ready_bands _ (guarded _ _ _ _)
  table_of-length Kind.vol ps = ready_bands _ (length-scan _ _ _ _)
  table_of-length Kind.macd ps = ready_bands _ (macd-length _ _ _)
  table_of-length Kind.kdj ps = ready_bands _ (guarded _ _ _ _)
  table_of-length Kind.rsi ps = ready_point _ (guarded _ _ _ _)
  table_of-length Kind.wr ps = ready_point _ (length-scan _ _ _ _)
  table_of-length Kind.bias ps = ready_point _ (bias-length _)
  table_of-length Kind.cci ps = ready_point _ (length-scan _ _ _ _)
  table_of-length Kind.atr ps = ready_point _ (guarded _ _ _ _)
  table_of-length Kind.obv ps = ready_point _ (length-scan _ _ _ _)

-- ===== src/Indicators/Oscillators.antt =====
-- service/indicators/calc.go: the oscillators.
use zhigu.Base.{
  ℕ, zero, suc, ◌+◌, ◌-◌, true, false, none, some, List, [], ◌∷◌, map, length, ltb, leb, ◌==◌, ◌&&◌,
  ◌||◌, not, if◌then◌else◌, Decimals, abs, required, at, replicate, fold_range, scan,
}
use zhigu.Indicators.Averages.{
  Bar, Value, Point, nothing, value, rounded, bar, window, mean_of, sma_close, Bands,
}

module _ (d : Decimals) where
  abbrev pub lowest : List (Bar d) → ℕ → ℕ → d.Decimal
  lowest bars n i =
      window d (λ acc j. if d.lt (bar d bars j).low acc then (bar d bars j).low else acc) n i
        (bar d bars i).low

  abbrev pub highest : List (Bar d) → ℕ → ℕ → d.Decimal
  highest bars n i =
      window d (λ acc j. if d.lt acc (bar d bars j).high then (bar d bars j).high else acc) n i
        (bar d bars i).high

  -- 100 (part) / (highest - lowest), and 50 where these are equal.
  abbrev pub within_range : d.Decimal → d.Decimal → d.Decimal → d.Decimal
  within_range high low part =
      if d.eq high low
      then d.of_nat 50
      else rounded d (d.div (d.mul (d.of_nat 100) part) (d.sub high low))

  abbrev pub blended : ℕ → d.Decimal → d.Decimal → d.Decimal
  blended m old new = rounded d (
      d.add (d.mul (d.div (d.sub (d.of_nat m) (d.of_nat 1)) (d.of_nat m)) old)
        (d.div new (d.of_nat m)))

  abbrev pub kdj_at :
      List (Bar d) → ℕ → ℕ → ℕ → ℕ → d.Decimal × d.Decimal → (d.Decimal × d.Decimal) × Bands d
  kdj_at bars n m1 m2 i s =
      let low = lowest bars n i in
      let rsv = within_range (highest bars n i) low (d.sub (bar d bars i).close low) in
      let k = blended m1 s.0 rsv in
      let dd = blended m2 s.1 k in
      let j = rounded d (d.sub (d.mul (d.of_nat 3) k) (d.mul (d.of_nat 2) dd)) in
      ((k, dd), (some k, some dd, some j, true))

  abbrev pub kdj_step :
      List (Bar d) → ℕ → ℕ → ℕ → ℕ → d.Decimal × d.Decimal → (d.Decimal × d.Decimal) × Bands d
  kdj_step bars n m1 m2 i s =
      if ltb (i + 1) n then (s, (none, none, none, false)) else kdj_at bars n m1 m2 i s

  unfoldable pub kdj : List (Bar d) → ℕ → ℕ → ℕ → List (Bands d)
  kdj bars n m1 m2 =
      if leb n 0 || leb m1 0 || leb m2 0
      then replicate (length bars) (none, none, none, false)
      else scan (kdj_step bars n m1 m2) (length bars) 0 (d.of_nat 50, d.of_nat 50)

  abbrev pub change : List (Bar d) → ℕ → d.Decimal
  change bars i = d.sub (bar d bars i).close (bar d bars (i - 1)).close

  abbrev pub gain_of : d.Decimal → d.Decimal
  gain_of chg = if d.lt d.zero chg then chg else d.zero

  abbrev pub loss_of : d.Decimal → d.Decimal
  loss_of chg = if d.lt d.zero chg then d.zero else abs d chg

  abbrev pub add_gain : d.Decimal → d.Decimal → d.Decimal
  add_gain acc chg = if d.lt d.zero chg then d.add acc chg else acc

  abbrev pub add_loss : d.Decimal → d.Decimal → d.Decimal
  add_loss acc chg = if d.lt d.zero chg then acc else d.add acc (abs d chg)

  abbrev pub rsi_value : d.Decimal → d.Decimal → d.Decimal
  rsi_value gain loss =
      if d.eq loss d.zero && not (d.eq gain d.zero)
      then d.of_nat 100
      else if d.eq loss d.zero && d.eq gain d.zero
      then d.of_nat 50
      else rounded d
          (d.sub (d.of_nat 100) (d.div (d.of_nat 100) (d.add (d.of_nat 1) (d.div gain loss))))

  abbrev pub first_average : (d.Decimal → d.Decimal → d.Decimal) → List (Bar d) → ℕ → d.Decimal
  first_average add_to bars n =
      d.div (fold_range (λ j acc. add_to acc (change bars j)) n 1 d.zero) (d.of_nat n)

  abbrev pub next_average : ℕ → d.Decimal → d.Decimal → d.Decimal
  next_average n avg x = rounded d (d.div (d.add (d.mul avg (d.of_nat (n - 1))) x) (d.of_nat n))

  -- Before n nothing is written; at n the averages of the first n changes stand.
  abbrev pub rsi_averages : List (Bar d) → ℕ → ℕ → d.Decimal × d.Decimal → d.Decimal × d.Decimal
  rsi_averages bars n i s =
      if i == n then (first_average add_gain bars n, first_average add_loss bars n) else (
        next_average n s.0 (gain_of (change bars i)),
        next_average n s.1 (loss_of (change bars i)),
      )

  abbrev pub rsi_step :
      List (Bar d) → ℕ → ℕ → d.Decimal × d.Decimal → (d.Decimal × d.Decimal) × Point d
  rsi_step bars n i s =
      let avg = rsi_averages bars n i s in
      if ltb i n then (s, nothing d) else (avg, (some (rsi_value avg.0 avg.1), true))

  unfoldable pub rsi : List (Bar d) → ℕ → List (Point d)
  rsi bars n =
      if ltb (length bars) (n + 1) || leb n 0
      then replicate (length bars) (nothing d)
      else scan (rsi_step bars n) (length bars) 0 (d.zero, d.zero)

  abbrev pub wr_at : List (Bar d) → ℕ → ℕ → Point d
  wr_at bars n i =
      let high = highest bars n i in
      (some (within_range high (lowest bars n i) (d.sub high (bar d bars i).close)), true)

  abbrev pub wr_step : List (Bar d) → ℕ → ℕ → Unit {0} → Unit {0} × Point d
  wr_step bars n i _ = (tt, if leb n (i + 1) then wr_at bars n i else nothing d)

  unfoldable pub wr : List (Bar d) → ℕ → List (Point d)
  wr bars n = scan (wr_step bars n) (length bars) 0 tt

  abbrev pub bias_of : Value d → d.Decimal → Point d
  bias_of none close = nothing d
  bias_of (some sma) close =
      if d.eq sma d.zero
      then nothing d
      else (some (rounded d (d.div (d.mul (d.of_nat 100) (d.sub close sma)) sma)), true)

  abbrev pub biases : List (Point d) → List (Bar d) → List (Point d)
  biases [] bars = []
  biases (p ∷ ps) [] = []
  biases (p ∷ ps) (b ∷ bars) = bias_of (value d p) b.close ∷ biases ps bars

  unfoldable pub bias : List (Bar d) → ℕ → List (Point d)
  bias bars n = biases (sma_close d bars n) bars

  abbrev pub typical_price : Bar d → d.Decimal
  typical_price b = rounded d (d.div (d.add (d.add b.high b.low) b.close) (d.of_nat 3))

  abbrev pub cci_at : List d.Decimal → ℕ → ℕ → Point d
  cci_at tp n i =
      let mean = mean_of d (window d (λ acc j. d.add acc (at d.zero tp j)) n i d.zero) n in
      let dev = window d (λ acc j. d.add acc (abs d (d.sub (at d.zero tp j) mean))) n i d.zero in
      let md = mean_of d dev n in
      let factor = required d "0.015" in
      if d.eq md d.zero
      then (some d.zero, true)
      else (some (rounded d (d.div (d.sub (at d.zero tp i) mean) (d.mul factor md))), true)

  abbrev pub cci_step : List d.Decimal → ℕ → ℕ → Unit {0} → Unit {0} × Point d
  cci_step tp n i _ = (tt, if leb n (i + 1) then cci_at tp n i else nothing d)

  unfoldable pub cci : List (Bar d) → ℕ → List (Point d)
  cci bars n = scan (cci_step (map typical_price bars) n) (length bars) 0 tt

  abbrev pub greater : d.Decimal → d.Decimal → d.Decimal
  greater m x = if d.lt m x then x else m

  abbrev pub true_range : List (Bar d) → ℕ → d.Decimal
  true_range bars zero = d.sub (bar d bars 0).high (bar d bars 0).low
  true_range bars (suc i) =
      let b = bar d bars (suc i) in
      let prev = (bar d bars i).close in
      greater (greater (d.sub b.high b.low) (abs d (d.sub b.high prev))) (abs d (d.sub b.low prev))

  abbrev pub atr_average : List (Bar d) → ℕ → ℕ → d.Decimal → d.Decimal
  atr_average bars n i avg =
      if i + 1 == n
      then mean_of d (fold_range (λ j sum. d.add sum (true_range bars j)) n 0 d.zero) n
      else next_average n avg (true_range bars i)

  abbrev pub atr_step : List (Bar d) → ℕ → ℕ → d.Decimal → d.Decimal × Point d
  atr_step bars n i avg =
      let avg' = atr_average bars n i avg in
      if ltb (i + 1) n then (avg, nothing d) else (avg', (some avg', true))

  unfoldable pub atr : List (Bar d) → ℕ → List (Point d)
  atr bars n =
      if length bars == 0 || leb n 0 || ltb (length bars) n
      then replicate (length bars) (nothing d)
      else scan (atr_step bars n) (length bars) 0 d.zero

  -- Cmp of the closing price with that of the bar before.
  abbrev pub obv_next : List (Bar d) → ℕ → d.Decimal → d.Decimal
  obv_next bars i cur =
      if d.lt (bar d bars (i - 1)).close (bar d bars i).close
      then d.add cur (bar d bars i).volume
      else if d.lt (bar d bars i).close (bar d bars (i - 1)).close
      then d.sub cur (bar d bars i).volume
      else cur

  abbrev pub obv_step : List (Bar d) → ℕ → d.Decimal → d.Decimal × Point d
  obv_step bars zero cur = (d.zero, (some d.zero, false))
  obv_step bars (suc i) cur = let cur' = obv_next bars (suc i) cur in (cur', (some cur', true))

  unfoldable pub obv : List (Bar d) → List (Point d)
  obv bars = scan (obv_step bars) (length bars) 0 d.zero

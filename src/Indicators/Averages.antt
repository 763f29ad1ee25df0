-- ===== src/Indicators/Averages.antt =====
-- service/indicators/calc.go: the averages, which go over the closing prices or the volumes.
use zhigu.Base.{
  ℕ, zero, suc, ◌+◌, ◌-◌, Bool, true, false, Option, none, some, List, [], ◌∷◌, String, length, ltb,
  leb, if◌then◌else◌, Decimals, le, at, replicate, fold_range, scan,
}

pub record Bar (d : Decimals) : Type 0 where
  pub time : String
  pub open_ : d.Decimal
  pub high : d.Decimal
  pub low : d.Decimal
  pub close : d.Decimal
  pub volume : d.Decimal

module _ (d : Decimals) where
  -- `out[i]`, nil until it is written, and with it `ready[i]`.
  abbrev pub Value : Type 0
  Value = Option d.Decimal

  abbrev pub Point : Type 0
  Point = Value × Bool

  abbrev pub nothing : Point
  nothing = (none, false)

  abbrev pub value : Point → Value
  value p = p.0

  abbrev pub is_ready : Point → Bool
  is_ready p = p.1

  abbrev pub rounded : d.Decimal → d.Decimal
  rounded x = d.round_bank 34 x

  -- No bar: the loops read within their bounds.
  abbrev pub no_bar : Bar d
  no_bar = record {
    time = "";
    open_ = d.zero;
    high = d.zero;
    low = d.zero;
    close = d.zero;
    volume = d.zero;
  }

  abbrev pub bar : List (Bar d) → ℕ → Bar d
  bar = at no_bar

  -- A sum over the last n entries: the new one is added and the one that leaves is subtracted.
  abbrev pub moving_sum : (ℕ → d.Decimal) → ℕ → ℕ → d.Decimal → d.Decimal
  moving_sum entry n i sum =
      let more = d.add sum (entry i) in if leb n i then d.sub more (entry (i - n)) else more

  abbrev pub mean_of : d.Decimal → ℕ → d.Decimal
  mean_of sum n = rounded (d.div sum (d.of_nat n))

  abbrev pub sma_step : List (Bar d) → ℕ → ℕ → d.Decimal → d.Decimal × Point
  sma_step bars n i sum =
      let sum' = moving_sum (λ j. (bar bars j).close) n i sum in
      (sum', if leb n (i + 1) then (some (mean_of sum' n), true) else nothing)

  unfoldable pub sma_close : List (Bar d) → ℕ → List Point
  sma_close bars n =
      if leb n 0
      then replicate (length bars) nothing
      else scan (sma_step bars n) (length bars) 0 d.zero

  abbrev pub weight : ℕ → d.Decimal
  weight n = d.div (d.of_nat 2) (d.of_nat (n + 1))

  abbrev pub smoothed : ℕ → d.Decimal → d.Decimal → d.Decimal
  smoothed n ema x =
      rounded (d.add (d.mul ema (d.sub (d.of_nat 1) (weight n))) (d.mul x (weight n)))

  -- The first price is the average before it is rounded; it is written, but it is never ready.
  abbrev pub ema_step : List (Bar d) → ℕ → ℕ → d.Decimal → d.Decimal × Point
  ema_step bars n zero ema = ((bar bars 0).close, (some (rounded (bar bars 0).close), false))
  ema_step bars n (suc i) ema =
      let ema' = smoothed n ema (bar bars (suc i)).close in (ema', (some ema', leb n (suc i + 1)))

  unfoldable pub ema_close : List (Bar d) → ℕ → List Point
  ema_close bars n =
      if leb n 0
      then replicate (length bars) nothing
      else scan (ema_step bars n) (length bars) 0 d.zero

  -- `ema` before it is seeded is none.
  unfoldable pub ema_series : ℕ → Option d.Decimal → List Value → List Value
  ema_series n ema [] = []
  ema_series n ema (none ∷ vs) = none ∷ ema_series n ema vs
  ema_series n none (some v ∷ vs) = some (rounded v) ∷ ema_series n (some v) vs
  ema_series n (some ema) (some v ∷ vs) =
      some (smoothed n ema v) ∷ ema_series n (some (smoothed n ema v)) vs

  -- The loop over `j` from i-n+1 to i.
  abbrev pub window : (d.Decimal → ℕ → d.Decimal) → ℕ → ℕ → d.Decimal → d.Decimal
  window body n i start = fold_range (λ j acc. body acc j) n (i + 1 - n) start

  -- One rounded of Newton's method; none when it has reached its fixed point.
  abbrev next_root : d.Decimal → d.Decimal → d.Decimal
  next_root x r = rounded (d.div (d.add r (d.div x r)) (d.of_nat 2))

  unfoldable pub sqrt_loop : ℕ → d.Decimal → d.Decimal → d.Decimal
  sqrt_loop zero x r = rounded r
  sqrt_loop (suc rounds) x r =
      let rest = sqrt_loop rounds x (next_root x r) in
      if d.eq r d.zero then rounded r else if d.eq (next_root x r) r then next_root x r else rest

  unfoldable pub sqrt : d.Decimal → d.Decimal
  sqrt x =
      if le d x d.zero
      then d.zero
      else let above = d.add (d.div x (d.of_nat 2)) (d.of_nat 1) in
        sqrt_loop 48 x (if d.lt (d.of_nat 1) x then above else d.of_nat 1)

  -- The middle, upper and lower band of a bar.
  abbrev pub Bands : Type 0
  Bands = Value × Value × Value × Bool

  abbrev pub bands : ℕ → d.Decimal → d.Decimal → Bands
  bands k mean sd = (
    some mean,
    some (rounded (d.add mean (d.mul (d.of_nat k) sd))),
    some (rounded (d.sub mean (d.mul (d.of_nat k) sd))),
    true,
  )

  abbrev pub deviation : d.Decimal → d.Decimal → d.Decimal
  deviation mean x = d.mul (d.sub x mean) (d.sub x mean)

  abbrev pub boll_at : List (Bar d) → ℕ → ℕ → ℕ → Bands
  boll_at bars n k i =
      let mean = mean_of (window (λ acc j. d.add acc (bar bars j).close) n i d.zero) n in
      let acc = window (λ acc j. d.add acc (deviation mean (bar bars j).close)) n i d.zero in
      bands k mean (rounded (sqrt (d.div acc (d.of_nat n))))

  abbrev pub boll_step : List (Bar d) → ℕ → ℕ → ℕ → Unit {0} → Unit {0} × Bands
  boll_step bars n k i _ =
      (tt, if leb n (i + 1) then boll_at bars n k i else (none, none, none, false))

  unfoldable pub boll : List (Bar d) → ℕ → ℕ → List Bands
  boll bars n k =
      if leb n 0
      then replicate (length bars) (none, none, none, false)
      else scan (boll_step bars n k) (length bars) 0 tt

  abbrev pub mean_from : ℕ → ℕ → d.Decimal → Value
  mean_from n i sum = if leb n (i + 1) then some (mean_of sum n) else none

  abbrev pub vol_step :
      List (Bar d) → ℕ → ℕ → ℕ → d.Decimal × d.Decimal → (d.Decimal × d.Decimal) × Bands
  vol_step bars n5 n10 i s =
      let s5 = moving_sum (λ j. (bar bars j).volume) n5 i s.0 in
      let s10 = moving_sum (λ j. (bar bars j).volume) n10 i s.1 in
      let need = if ltb n5 n10 then n10 else n5 in
      (
        (s5, s10),
        (some (bar bars i).volume, mean_from n5 i s5, mean_from n10 i s10, leb need (i + 1)),
      )

  unfoldable pub vol_series : List (Bar d) → ℕ → ℕ → List Bands
  vol_series bars n5 n10 = scan (vol_step bars n5 n10) (length bars) 0 (d.zero, d.zero)

  abbrev pub difference : Point → Point → Value
  difference (some f, _) (some s, _) = some (rounded (d.sub f s))
  difference (none, _) _ = none
  difference (some f, _) (none, _) = none

  abbrev pub differences : List Point → List Point → List Value
  differences [] ys = []
  differences (x ∷ xs) [] = []
  differences (x ∷ xs) (y ∷ ys) = difference x y ∷ differences xs ys

  abbrev pub macd_at : ℕ → ℕ → Value → Value → Bands
  macd_at warmup i (some dif) (some dea) =
      (some dif, some dea, some (rounded (d.mul (d.of_nat 2) (d.sub dif dea))), leb warmup (i + 1))
  macd_at warmup i dif dea = (dif, dea, none, false)

  abbrev pub macd_rows : ℕ → ℕ → List Value → List Value → List Bands
  macd_rows warmup i [] deas = []
  macd_rows warmup i (dif ∷ difs) [] = []
  macd_rows warmup i (dif ∷ difs) (dea ∷ deas) =
      macd_at warmup i dif dea ∷ macd_rows warmup (suc i) difs deas

  unfoldable pub macd : List (Bar d) → ℕ → ℕ → ℕ → List Bands
  macd bars fast slow signal =
      let dif = differences (ema_close bars fast) (ema_close bars slow) in
      macd_rows (slow + signal - 1) 0 dif (ema_series signal none dif)

-- ===== src/Indicators/Engine.antt =====
-- service/indicators/engine.go: Compute and ComputeMany, and cross.go.
use zhigu.Base.{
  ℕ, ◌-◌, Bool, false, Option, none, some, List, [], ◌∷◌, String, map, length, ltb, leb, ◌&&◌, not,
  if◌then◌else◌, Result, ok, ◌>>=◌, Decimals, le, at,
}
use zhigu.Indicators.Averages.{
  Bar, Value, Point, value, is_ready, Bands, bar, sma_close, ema_close, boll, vol_series, macd,
}
use zhigu.Indicators.Oscillators.{kdj, rsi, wr, bias, cci, atr, obv}
use zhigu.Indicators.Registry.{Kind, Spec, NormalSpec, normalize_spec, param, Params}

module _ (d : Decimals) where
  -- The fields of a series by name, and its Ready.
  pub record Table : Type 0 where
    pub fields : List (String × List (Value d))
    pub ready : List Bool

  pub record Series : Type 0 where
    pub id : String
    pub kind : Kind
    pub params : Params
    pub table : Table
    pub warmup : ℕ
    pub calculation_start : String

  abbrev pub one_field : String → List (Point d) → Table
  one_field name ps = record { fields = (name, map (value d) ps) ∷ []; ready = map (is_ready d) ps }

  abbrev pub three_fields : String → String → String → List (Bands d) → Table
  three_fields a b c rows = record {
    fields =
        (a, map (λ (r : Bands d). r.0) rows)
        ∷ (b, map (λ (r : Bands d). r.1) rows)
        ∷ (c, map (λ (r : Bands d). r.2) rows)
        ∷ [];
    ready = map (λ (r : Bands d). r.3) rows;
  }

  -- The switch on the type.
  unfoldable pub table_of : List (Bar d) → Kind → Params → Table
  table_of bars kind ps = elim kind [
    | Kind.ma ↦ one_field "ma" (sma_close d bars (param "n" ps))
    | Kind.ema ↦ one_field "ema" (ema_close d bars (param "n" ps))
    | Kind.boll ↦ three_fields "mid" "upper" "lower" (boll d bars (param "n" ps) (param "k" ps))
    | Kind.vol ↦
        three_fields "volume" "ma5" "ma10" (vol_series d bars (param "ma5" ps) (param "ma10" ps))
    | Kind.macd ↦
        three_fields "dif" "dea" "hist"
          (macd d bars (param "fast" ps) (param "slow" ps) (param "signal" ps))
    | Kind.kdj ↦
        three_fields "k" "d" "j" (kdj d bars (param "n" ps) (param "m1" ps) (param "m2" ps))
    | Kind.rsi ↦ one_field "rsi" (rsi d bars (param "n" ps))
    | Kind.wr ↦ one_field "wr" (wr d bars (param "n" ps))
    | Kind.bias ↦ one_field "bias" (bias d bars (param "n" ps))
    | Kind.cci ↦ one_field "cci" (cci d bars (param "n" ps))
    | Kind.atr ↦ one_field "atr" (atr d bars (param "n" ps))
    | Kind.obv ↦ one_field "obv" (obv d bars)
  ]

  -- The time of the first bar that is warm, empty if there is none.
  abbrev pub start_of : List (Bar d) → ℕ → String
  start_of bars warmup =
      if leb (length bars) (warmup - 1) then "" else (bar d bars (warmup - 1)).time

  unfoldable pub series_of : List (Bar d) → NormalSpec × ℕ → Series
  series_of bars (norm, warmup) = record {
    id = norm.id;
    kind = norm.kind;
    params = norm.params;
    table = table_of bars norm.kind norm.params;
    warmup = warmup;
    calculation_start = start_of bars warmup;
  }

  unfoldable pub compute : List (Bar d) → Spec → Result Series
  compute bars spec = do norm ← normalize_spec spec; ok (series_of bars norm)

  unfoldable pub compute_many : List (Bar d) → List Spec → Result (List Series)
  compute_many bars [] = ok []
  compute_many bars (s ∷ specs) =
      let rest = compute_many bars specs in
      compute bars s >>= λ row. rest >>= λ rows. ok (row ∷ rows)

  -- A nil slice stands as none, which is ready everywhere on the right and nowhere on the left.
  abbrev pub ready_both : List Bool → Option (List Bool) → ℕ → Bool
  ready_both a none i = ltb i (length a) && at false a i
  ready_both a (some b) i = ltb i (length a) && ltb i (length b) && at false a i && at false b i

  abbrev pub above : Value d → Value d → Bool
  above (some l) (some r) = d.lt r l
  above _ _ = false

  -- Neither nil and the first at most the second.
  abbrev pub not_above : Value d → Value d → Bool
  not_above (some l) (some r) = le d l r
  not_above _ _ = false

  abbrev pub both_known :
      List (Value d) → List (Value d) → List Bool → Option (List Bool) → ℕ → Bool
  both_known left right lready rready i =
      not (ltb i 1)
      && ltb i (length left)
      && ltb i (length right)
      && ready_both lready rready i
      && ready_both lready rready (i - 1)

  unfoldable pub crosses_above :
      List (Value d) → List (Value d) → List Bool → Option (List Bool) → ℕ → Bool
  crosses_above left right lready rready i =
      both_known left right lready rready i
      && not_above (at none left (i - 1)) (at none right (i - 1))
      && above (at none left i) (at none right i)

  unfoldable pub crosses_below :
      List (Value d) → List (Value d) → List Bool → Option (List Bool) → ℕ → Bool
  crosses_below left right lready rready i =
      both_known left right lready rready i
      && not_above (at none right (i - 1)) (at none left (i - 1))
      && above (at none right i) (at none left i)

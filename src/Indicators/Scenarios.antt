-- ===== src/Indicators/Scenarios.antt =====
-- Tests of the indicators, and instances of their theorems.
use zhigu.Base.{
  ℕ, ◌≡◌, refl, none, some, true, false, List, [], ◌∷◌, ◌++◌, String, length, ok, pos, whole, ◌+ℤ◌,
  ◌-ℤ◌, div_ℤ, scan, trim_space,
}
use zhigu.Indicators.Averages.{Bar, sma_close}
use zhigu.Indicators.Registry.{
  Kind, Spec, NormalSpec, normalize_spec, normalize_params, lookup, warmup_of, spec_of,
}
use zhigu.Indicators.Engine.{Series, compute, series_of, table_of}
use zhigu.Indicators.Foresight.{Continues, compute-Continues}
use zhigu.Indicators.Readiness.{IsSoundTable, compute-IsSound}
use zhigu.Indicators.Idempotent.{normalize_spec-again}

abbrev closing : String → ℕ → Bar whole
closing day price = record {
  time = day;
  open_ = pos price;
  high = pos price;
  low = pos price;
  close = pos price;
  volume = pos 100;
}

abbrev three_days : List (Bar whole)
three_days = closing "2024-01-02" 10 ∷ closing "2024-01-03" 12 ∷ closing "2024-01-04" 20 ∷ []

abbrev next_day : List (Bar whole)
next_day = closing "2024-01-05" 4 ∷ []

abbrev two_day_average : Spec
two_day_average = record { id = ""; type = " ma "; params = ("n", 2) ∷ [] }

abbrev named_average : NormalSpec
named_average = record { id = "ma"; kind = Kind.ma; params = ("n", 2) ∷ [] }

normalizes : normalize_spec two_day_average ≡ ok (named_average, 2)
unfolding normalize_spec lookup trim_space normalize_params warmup_of
normalizes = refl

abbrev average : List (Bar whole) → Series whole
average bars = series_of whole bars (named_average, 2)

computes : (bars : List (Bar whole)) → compute whole bars two_day_average ≡ ok (average bars)
unfolding compute
computes bars = rw normalizes refl

-- Nothing before the second day, and the means of two days from there.
averages : (average three_days).table ≡ record {
  fields = ("ma", none ∷ some (pos 11) ∷ some (pos 16) ∷ []) ∷ [];
  ready = false ∷ true ∷ true ∷ [];
}
unfolding series_of table_of sma_close scan ◌+ℤ◌ ◌-ℤ◌ div_ℤ
averages = refl

compute-Continues_example :
    (t : Series whole) × (compute whole (three_days ++ next_day) two_day_average ≡ ok t)
    × Continues whole (average three_days) t
compute-Continues_example =
    compute-Continues whole three_days next_day two_day_average (average three_days)
      (computes three_days)

compute-IsSound_example :
    (length (average three_days).table.ready ≡ length three_days)
    × IsSoundTable whole
        (average three_days).kind
        (average three_days).warmup
        (average three_days).table
compute-IsSound_example =
    compute-IsSound whole three_days two_day_average (average three_days) (computes three_days)

normalize_spec-again_example : normalize_spec (spec_of named_average) ≡ ok (named_average, 2)
normalize_spec-again_example = normalize_spec-again two_day_average (named_average, 2) normalizes

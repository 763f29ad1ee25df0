-- ===== src/Indicators/Readiness.antt =====
-- Which entries of a computed series are ready, and that these have their values.
use zhigu.Base.{
  ℕ, suc, ◌+◌, ◌≡◌, refl, ◌∙◌, sym, subst, Bool, true, false, List, [], ◌∷◌, String, map, length,
  leb, is_null, ok, >>=-eq-ok, arith, Decimals, AllFrom, All,
}
use zhigu.Indicators.Averages.{Bar, Value, Point, value, is_ready, Bands}
use zhigu.Indicators.Registry.{Kind, Spec, normalize_spec, Params, param, warmup_of}
use zhigu.Indicators.Engine.{Table, Series, one_field, three_fields, table_of, series_of, compute}
use zhigu.Indicators.Ranges.{InRange, normalize_spec-InRange, ok-injective}
use zhigu.Indicators.Warmup.{
  WarmPoint, WarmBands, sma_close-Warm, ema_close-Warm, boll-Warm, vol_series-Warm, kdj-Warm,
  rsi-Warm, wr-Warm, cci-Warm, atr-Warm, obv-Warm,
}
use zhigu.Indicators.Lengths.{table_of-length}
use zhigu.Indicators.Warmup.Differences.{Tame, macd-Warm, bias-Tame}

abbrev pub is_bias : Kind → Bool
is_bias Kind.bias = true
is_bias _ = false

module _ (d : Decimals) where
  -- An entry that is ready is at or past the warmup and has a value, and every entry from the warmup on
  -- is ready, except for BIAS.
  abbrev pub Sound : Kind → ℕ → ℕ → Value d → Bool → Type 0
  Sound kind w i v ready =
      (ready ≡ true → (leb w (i + 1) ≡ true) × (is_null v ≡ false))
      × (is_bias kind ≡ false → leb w (i + 1) ≡ true → ready ≡ true)

  -- The predicate holds of the entries of a field and of Ready, at their index.
  abbrev pub Rows : (ℕ → Value d → Bool → Type 0) → ℕ → List (Value d) → List Bool → Type 0
  Rows P i [] [] = Unit {0}
  Rows P i [] (r ∷ rs) = ⊥
  Rows P i (v ∷ vs) [] = ⊥
  Rows P i (v ∷ vs) (r ∷ rs) = P i v r × Rows P (suc i) vs rs

  abbrev pub IsSoundTable : Kind → ℕ → Table d → Type 0
  IsSoundTable kind w t =
      All (λ (f : String × List (Value d)). Rows (Sound kind w) 0 f.1 t.ready) t.fields

  Rows-points :
      (P : ℕ → Value d → Bool → Type 0) (Q : ℕ → Point d → Type 0) (ps : List (Point d)) (i : ℕ)
      → ((j : ℕ) (p : Point d) → Q j p → P j (value d p) (is_ready d p))
      → AllFrom Q i ps
      → Rows P i (map (value d) ps) (map (is_ready d) ps)
  Rows-points P Q [] i imp h = tt
  Rows-points P Q (p ∷ ps) i imp h = (imp i p h.0, Rows-points P Q ps (suc i) imp h.1)

  Rows-bands :
      (P : ℕ → Value d → Bool → Type 0) (Q : ℕ → Bands d → Type 0) (field : Bands d → Value d)
      (rs : List (Bands d)) (i : ℕ)
      → ((j : ℕ) (r : Bands d) → Q j r → P j (field r) r.3)
      → AllFrom Q i rs
      → Rows P i (map field rs) (map (λ (r : Bands d). r.3) rs)
  Rows-bands P Q field [] i imp h = tt
  Rows-bands P Q field (r ∷ rs) i imp h = (imp i r h.0, Rows-bands P Q field rs (suc i) imp h.1)

  warm_point :
      (kind : Kind) (w : ℕ) (name : String) (ps : List (Point d))
      → AllFrom (WarmPoint d w) 0 ps
      → IsSoundTable kind w (one_field d name ps)
  warm_point kind w name ps h = (
    Rows-points (Sound kind w) (WarmPoint d w) ps 0
        (λ i p q. ((λ r. (sym q.0 ∙ r, q.1 (sym q.0 ∙ r))), (λ _ le. q.0 ∙ le))) h,
    tt,
  )

  warm_bands :
      (kind : Kind) (w : ℕ) (a b c : String) (rs : List (Bands d))
      → AllFrom (WarmBands d w) 0 rs
      → IsSoundTable kind w (three_fields d a b c rs)
  warm_bands kind w a b c rs h =
      let field =
        λ (get : Bands d → Value d)
            (has : (i : ℕ) (r : Bands d)
              → WarmBands d w i r
              → leb w (i + 1) ≡ true
              → is_null (get r) ≡ false).
          Rows-bands (Sound kind w) (WarmBands d w) get rs 0
            (λ i r q. ((λ e. (sym q.0 ∙ e, has i r q (sym q.0 ∙ e))), (λ _ le. q.0 ∙ le))) h in
      (
        field (λ r. r.0) (λ i r q le. (q.1 le).0),
        (
          field (λ r. r.1) (λ i r q le. (q.1 le).1),
          (field (λ r. r.2) (λ i r q le. (q.1 le).2), tt),
        ),
      )

  table_of-IsSound :
      (bars : List (Bar d)) (kind : Kind) (id : String) (ps : Params)
      → InRange kind ps
      → IsSoundTable kind
          (warmup_of (record { id = id; kind = kind; params = ps }))
          (table_of d bars kind ps)
  unfolding table_of warmup_of
  table_of-IsSound bars Kind.ma id ps h =
      warm_point Kind.ma _ "ma" _ (sma_close-Warm d bars _ (omega arith))
  table_of-IsSound bars Kind.ema id ps h = warm_point Kind.ema _ "ema" _ (ema_close-Warm d bars _ h)
  table_of-IsSound bars Kind.boll id ps h =
      warm_bands Kind.boll _ "mid" "upper" "lower" _ (boll-Warm d bars _ _ (omega arith))
  table_of-IsSound bars Kind.vol id ps h =
      warm_bands Kind.vol _ "volume" "ma5" "ma10" _ (vol_series-Warm d bars _ _ _ refl)
  table_of-IsSound bars Kind.macd id ps h =
      warm_bands Kind.macd _ "dif" "dea" "hist" _
        (macd-Warm d bars _ _ _ (omega arith) (omega arith))
  table_of-IsSound bars Kind.kdj id ps h =
      warm_bands Kind.kdj _ "k" "d" "j" _
        (kdj-Warm d bars _ _ _ (omega arith) (omega arith) (omega arith))
  table_of-IsSound bars Kind.rsi id ps h =
      warm_point Kind.rsi _ "rsi" _ (rsi-Warm d bars _ (omega arith))
  table_of-IsSound bars Kind.wr id ps h = warm_point Kind.wr _ "wr" _ (wr-Warm d bars _)
  table_of-IsSound bars Kind.cci id ps h = warm_point Kind.cci _ "cci" _ (cci-Warm d bars _)
  table_of-IsSound bars Kind.atr id ps h =
      warm_point Kind.atr _ "atr" _ (atr-Warm d bars _ (omega arith))
  table_of-IsSound bars Kind.obv id ps h = warm_point Kind.obv _ "obv" _ (obv-Warm d bars)
  table_of-IsSound bars Kind.bias id ps h = (
    Rows-points (Sound Kind.bias (param "n" ps)) (Tame d (param "n" ps)) _ 0 (λ i p q. (q, λ e. cc))
        (bias-Tame d bars _ (omega arith)),
    tt,
  )

  -- In a series that Compute returns there is one entry for each bar, and an entry is ready exactly from the warmup on, and every field has
  -- a value there; an entry of BIAS may also lack both.
  pub compute-IsSound :
      (bars : List (Bar d)) (spec : Spec) (s : Series d)
      → compute d bars spec ≡ ok s
      → (length s.table.ready ≡ length bars) × IsSoundTable s.kind s.warmup s.table
  unfolding compute series_of
  compute-IsSound bars spec s h =
      let (norm, n, e) = >>=-eq-ok (normalize_spec spec) (λ m. ok (series_of d bars m)) h in
      let same : series_of d bars norm ≡ s = ok-injective e in
      let (w, range) = normalize_spec-InRange spec norm n in
      subst
        (λ (r : Series d).
          (length r.table.ready ≡ length bars) × IsSoundTable r.kind r.warmup r.table)
        same
        (
          table_of-length d bars norm.0.kind norm.0.params,
          rw w (table_of-IsSound bars norm.0.kind norm.0.id norm.0.params range),
        )

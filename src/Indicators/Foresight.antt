-- ===== src/Indicators/Foresight.antt =====
-- The series of a specification over some bars, and over more bars.
use zhigu.Base.{
  ℕ, ◌≡◌, refl, subst, List, [], ◌∷◌, ◌++◌, String, ok, >>=-eq-ok, Decimals, Extends, Extends-map,
}
use zhigu.Indicators.Averages.{Bar, Value, Point, value, is_ready, Bands}
use zhigu.Indicators.Registry.{Kind, Spec, NormalSpec, normalize_spec, Params}
use zhigu.Indicators.Engine.{Table, Series, one_field, three_fields, table_of, series_of, compute}
use zhigu.Indicators.Causal.{
  sma_close-Extends, ema_close-Extends, boll-Extends, vol_series-Extends, macd-Extends,
}
use zhigu.Indicators.Causal.Oscillators.{
  kdj-Extends, wr-Extends, bias-Extends, rsi-Extends, atr-Extends, obv-Extends, cci-Extends,
}

module _ (d : Decimals) where
  -- Each field goes on where the shorter one ends, under the same name.
  abbrev pub FieldsExtend : List (String × List (Value d)) → List (String × List (Value d)) → Type 0
  FieldsExtend [] [] = Unit {0}
  FieldsExtend [] (g ∷ gs) = ⊥
  FieldsExtend (f ∷ fs) [] = ⊥
  FieldsExtend (f ∷ fs) (g ∷ gs) = (g.0 ≡ f.0) × Extends f.1 g.1 × FieldsExtend fs gs

  pub record TableExtends (s t : Table d) : Type 0 where
    pub fields : FieldsExtend s.fields t.fields
    pub ready : Extends s.ready t.ready

  one_field-Extends :
      (name : String) (ps qs : List (Point d))
      → Extends ps qs
      → TableExtends (one_field d name ps) (one_field d name qs)
  one_field-Extends name ps qs h = record {
    fields = (refl, Extends-map (value d) ps qs h, tt);
    ready = Extends-map (is_ready d) ps qs h;
  }

  three_fields-Extends :
      (a b c : String) (ps qs : List (Bands d))
      → Extends ps qs
      → TableExtends (three_fields d a b c ps) (three_fields d a b c qs)
  three_fields-Extends a b c ps qs h = record {
    fields = (
      refl,
      Extends-map (λ (r : Bands d). r.0) ps qs h,
      (
        refl,
        Extends-map (λ (r : Bands d). r.1) ps qs h,
        (refl, Extends-map (λ (r : Bands d). r.2) ps qs h, tt),
      ),
    );
    ready = Extends-map (λ (r : Bands d). r.3) ps qs h;
  }

  table_of-Extends :
      (xs ys : List (Bar d)) (kind : Kind) (ps : Params)
      → TableExtends (table_of d xs kind ps) (table_of d (xs ++ ys) kind ps)
  unfolding table_of
  table_of-Extends xs ys Kind.ma ps = one_field-Extends _ _ _ (sma_close-Extends d xs ys _)
  table_of-Extends xs ys Kind.ema ps = one_field-Extends _ _ _ (ema_close-Extends d xs ys _)
  table_of-Extends xs ys Kind.boll ps = three_fields-Extends _ _ _ _ _ (boll-Extends d xs ys _ _)
  table_of-Extends xs ys Kind.vol ps =
      three_fields-Extends _ _ _ _ _ (vol_series-Extends d xs ys _ _)
  table_of-Extends xs ys Kind.macd ps = three_fields-Extends _ _ _ _ _ (macd-Extends d xs ys _ _ _)
  table_of-Extends xs ys Kind.kdj ps = three_fields-Extends _ _ _ _ _ (kdj-Extends d xs ys _ _ _)
  table_of-Extends xs ys Kind.rsi ps = one_field-Extends _ _ _ (rsi-Extends d xs ys _)
  table_of-Extends xs ys Kind.wr ps = one_field-Extends _ _ _ (wr-Extends d xs ys _)
  table_of-Extends xs ys Kind.bias ps = one_field-Extends _ _ _ (bias-Extends d xs ys _)
  table_of-Extends xs ys Kind.cci ps = one_field-Extends _ _ _ (cci-Extends d xs ys _)
  table_of-Extends xs ys Kind.atr ps = one_field-Extends _ _ _ (atr-Extends d xs ys _)
  table_of-Extends xs ys Kind.obv ps = one_field-Extends _ _ _ (obv-Extends d xs ys)

  -- The series of more bars is that of the first ones, continued.
  pub record Continues (s t : Series d) : Type 0 where
    pub id : t.id ≡ s.id
    pub kind : t.kind ≡ s.kind
    pub params : t.params ≡ s.params
    pub warmup : t.warmup ≡ s.warmup
    pub table : TableExtends s.table t.table

  series_of-Continues :
      (xs ys : List (Bar d)) (norm : NormalSpec × ℕ)
      → Continues (series_of d xs norm) (series_of d (xs ++ ys) norm)
  unfolding series_of
  series_of-Continues xs ys (norm, warmup) = record {
    id = refl;
    kind = refl;
    params = refl;
    warmup = refl;
    table = table_of-Extends xs ys norm.kind norm.params;
  }

  -- Whatever bars come later, the values and the readiness that Compute finds for the bars before stay.
  pub compute-Continues :
      (xs ys : List (Bar d)) (spec : Spec) (s : Series d)
      → compute d xs spec ≡ ok s
      → (t : Series d) × (compute d (xs ++ ys) spec ≡ ok t) × Continues s t
  unfolding compute
  compute-Continues xs ys spec s h =
      let (norm, n, e) = >>=-eq-ok (normalize_spec spec) (λ m. ok (series_of d xs m)) h in
      let same : series_of d xs norm ≡ s = cc in
      (
        series_of d (xs ++ ys) norm,
        rw n refl,
        subst (λ r. Continues r (series_of d (xs ++ ys) norm)) same
            (series_of-Continues xs ys norm),
      )

-- ===== src/PromProxy/Encode/Untyped.antt =====
-- src/prom_proxy/encode.rs: the last arm of the `match` on the type of a family.
use proto.Base.{
  ◌≡◌, refl, ap, ◌∙◌, Bool, true, false, not, Bool-cases, inl, inr, List, [], ◌∷◌, ◌++◌, String,
}
use proto.Base.Integers.{ℤ}
use proto.Base.Maps.{filter}
use proto.PromProxy.Encode.{
  Prost, Float, MetricType, counter, gauge, summary, untyped, histogram, Metric, MetricFamily,
  encode_write_request, encode_metric_families,
}
use proto.PromProxy.Encode.Expansion.{
  metrics_series, families_series, encode_metric_families-families_series,
}

abbrev pub is_untyped : MetricType → Bool
is_untyped untyped = true
is_untyped counter = false
is_untyped gauge = false
is_untyped summary = false
is_untyped histogram = false

-- The families of a type that the source has a case for.
abbrev pub typed : {F : Type 0} → List (MetricFamily F) → List (MetricFamily F)
typed mfs = filter (λ mf. not (is_untyped mf.field_type)) mfs

module _ {F : Type 0} (float : Float F) where
  metrics_series-untyped :
      (mtype : MetricType) (now : ℤ) (name : String) (ms : List (Metric F))
      → is_untyped mtype ≡ true
      → metrics_series float now name mtype ms ≡ []
  metrics_series-untyped untyped now name [] e = refl
  metrics_series-untyped untyped now name (m ∷ ms) e = metrics_series-untyped untyped now name ms e
  metrics_series-untyped counter now name ms e = cc
  metrics_series-untyped gauge now name ms e = cc
  metrics_series-untyped summary now name ms e = cc
  metrics_series-untyped histogram now name ms e = cc

  families_series-typed :
      (now : ℤ) (mfs : List (MetricFamily F))
      → families_series float now mfs ≡ families_series float now (typed mfs)
  families_series-typed now [] = refl
  families_series-typed now (mf ∷ mfs) =
      let ih = families_series-typed now mfs in
      let own = metrics_series float now mf.name mf.field_type mf.metrics in
      elim (Bool-cases (is_untyped mf.field_type)) [
        | inl out ↦
            let nothing = metrics_series-untyped mf.field_type now mf.name mf.metrics out in
            ap (λ xs. xs ++ families_series float now mfs) nothing ∙ ih ∙ rw out refl
        | inr kept ↦ ap (λ xs. own ++ xs) ih ∙ rw kept refl
      ]

  -- The request that stands for the families leaves out those of type Untyped. It has, for each of the
  -- others and metric by metric, one series for each number that a counter, a gauge, a histogram or a
  -- summary reports: its name, the labels of the metric and those of the number, and one sample at
  -- the metric's own time, or at the time of the call where that is zero.
  pub encode_metric_families-series :
      (encode : Prost F) (now : ℤ) (mfs : List (MetricFamily F))
      → encode_metric_families float encode now mfs
        ≡ encode_write_request encode (families_series float now (typed mfs))
  encode_metric_families-series encode now mfs =
      encode_metric_families-families_series float encode now mfs
      ∙ ap (encode_write_request encode) (families_series-typed now mfs)

-- ===== src/Go/Encode/Agrees.antt =====
-- promproxy/encode.go beside src/prom_proxy/encode.rs: the requests that the two encoders build.
pub mod Series
use proto.Base.{
  ℕ, zero, suc, Bool, true, false, ◌≡◌, ◌≢◌, refl, sym, ap, ◌∙◌, List, [], ◌∷◌, ◌++◌, map, String,
  str_eq, if◌then◌else◌, Option, none, some, Outcome, ok, map_err, Bool-cases, inl, inr, All,
}
use mathlib.Core.List.{map-map, map-append}
use mathlib.Core.Option
use proto.Base.Integers.{ℤ, pos, negsuc}
use proto.PromProxy.Encode.{
  has_name, rename_first, Label, label, TimeSeries, PbLabel, PbTimeSeries, PbWriteRequest, Bucket,
  Quantile, to_pb, suffixed,
}
use proto.PromProxy.Encode
use proto.PromProxy.Encode.Text.{float_label}
use proto.Go.Encode.{
  Float, MetricType, counter, gauge, summary, untyped, histogram, Metric, MetricFamily, pb_label,
  labels_from_metric, renamed, with_name, append_label, time_series, stamp, push_buckets,
  push_quantiles, push_metric, push_metrics, push_families, encode_metric_families, marshal,
}
use proto.Go.Encode.Agrees.Series.{
  pb_labels, own_time, go_type, go_metric, go_family, stamp-own_time, with_name-pb_labels,
  time_series-to_pb, labels_from_metric-to_pb, labelled-to_pb, pushed,
}

module _ {F : Type 0} (crate : Encode.Float F) (float : Float F)
    (numbers : (n : ℕ) → float.from_uint64 n ≡ crate.from_u64 n) where
  -- The two print a number alike.
  abbrev pub SameText : F → Type 0
  SameText v = float.format_float v ≡ float_label (crate.display v)

  -- The bounds and the quantiles of a metric are printed alike.
  abbrev pub SameTexts : Encode.Metric F → Type 0
  SameTexts m =
      All (λ (b : Bucket F). SameText b.upper_bound) m.histogram.buckets
      × All (λ (q : Quantile F). SameText q.quantile) m.summary.quantiles

  push_buckets-to_pb :
      (base : List Label) (name : String) (ts : ℤ) (bs : List (Bucket F))
      (series : List (TimeSeries F))
      → All (λ (b : Bucket F). SameText b.upper_bound) bs
      → push_buckets float (pb_labels base) name ts bs (map to_pb series)
        ≡ map to_pb (Encode.push_buckets crate base name ts bs series)
  unfolding push_buckets Encode.push_buckets
  push_buckets-to_pb base name ts [] series h = refl
  push_buckets-to_pb base name ts (b ∷ bs) series h =
      ap (push_buckets float (pb_labels base) name ts bs) (
        pushed series _ _ (
          rw (h.0, numbers b.cumulative_count)
            (labelled-to_pb base (suffixed name "_bucket") "le"
              (float_label (crate.display b.upper_bound)) (crate.from_u64 b.cumulative_count) ts)))
      ∙ push_buckets-to_pb base name ts bs _ h.1

  push_quantiles-to_pb :
      (base : List Label) (name : String) (ts : ℤ) (qs : List (Quantile F))
      (series : List (TimeSeries F))
      → All (λ (q : Quantile F). SameText q.quantile) qs
      → push_quantiles float (pb_labels base) name ts qs (map to_pb series)
        ≡ map to_pb (Encode.push_quantiles crate base name ts qs series)
  unfolding push_quantiles Encode.push_quantiles
  push_quantiles-to_pb base name ts [] series h = refl
  push_quantiles-to_pb base name ts (q ∷ qs) series h =
      ap (push_quantiles float (pb_labels base) name ts qs) (
        pushed series _ _ (
          rw h.0 (
            labelled-to_pb base name "quantile" (float_label (crate.display q.quantile)) q.value
              ts)))
      ∙ push_quantiles-to_pb base name ts qs _ h.1

  -- The sum and the count, which histograms and summaries begin with.
  begun :
      (base : List Label) (name : String) (ts : ℤ) (sum : F) (count : ℕ)
      (series : List (TimeSeries F))
      → (map to_pb series
            ++ time_series (with_name (pb_labels base) (suffixed name "_sum")) sum ts ∷ [])
          ++ time_series
              (with_name (pb_labels base) (suffixed name "_count"))
              (float.from_uint64 count)
              ts
            ∷ []
        ≡ map to_pb (
            (series ++ Encode.ts_one (Encode.with_name base (suffixed name "_sum")) sum ts ∷ [])
            ++ Encode.ts_one
                (Encode.with_name base (suffixed name "_count"))
                (crate.from_u64 count)
                ts
              ∷ [])
  begun base name ts sum count series =
      ap
        (λ xs.
          xs
          ++ time_series (with_name (pb_labels base) (suffixed name "_count"))
              (float.from_uint64 count) ts
            ∷ [])
        (pushed series _ _
          (rw (with_name-pb_labels base (suffixed name "_sum")) (time_series-to_pb _ sum ts)))
      ∙ pushed _ _ _ (
          rw (with_name-pb_labels base (suffixed name "_count"), numbers count)
            (time_series-to_pb _ (crate.from_u64 count) ts))

  push_metric-to_pb :
      (value : F) (mtype : Encode.MetricType) (base : List Label) (name : String) (ts : ℤ)
      (m : Encode.Metric F) (series : List (TimeSeries F))
      → mtype ≢ Encode.untyped
      → SameTexts m
      → push_metric float
          (go_type mtype)
          (pb_labels base)
          name
          ts
          (go_metric value m)
          (map to_pb series)
        ≡ ok (map to_pb (Encode.push_metric crate mtype base name ts m series))
  unfolding push_metric Encode.push_metric
  push_metric-to_pb value Encode.counter base name ts m series typed h =
      ap ok (pushed series _ _ (time_series-to_pb base m.counter ts))
  push_metric-to_pb value Encode.gauge base name ts m series typed h =
      ap ok (pushed series _ _ (time_series-to_pb base m.gauge ts))
  push_metric-to_pb value Encode.untyped base name ts m series typed h = absurd (typed refl)
  push_metric-to_pb value Encode.summary base name ts m series typed h =
      let s = m.summary in
      ap ok (
        ap (push_quantiles float (pb_labels base) name ts s.quantiles)
          (begun base name ts s.sample_sum s.sample_count series)
        ∙ push_quantiles-to_pb base name ts s.quantiles _ h.1)
  push_metric-to_pb value Encode.histogram base name ts m series typed h =
      let d = m.histogram in
      let inf : PbTimeSeries F =
        time_series
          (append_label (with_name (pb_labels base) (suffixed name "_bucket")) "le" "+Inf")
          (float.from_uint64 d.sample_count) ts in
      ap ok (
        ap (λ xs. push_buckets float (pb_labels base) name ts d.buckets xs ++ inf ∷ [])
          (begun base name ts d.sample_sum d.sample_count series)
        ∙ ap (λ xs. xs ++ inf ∷ []) (push_buckets-to_pb base name ts d.buckets _ h.0)
        ∙ pushed _ inf _ (
            rw (numbers d.sample_count) (
              labelled-to_pb base (suffixed name "_bucket") "le" "+Inf"
                (crate.from_u64 d.sample_count) ts)))

  push_metrics-to_pb :
      (value : F) (now : ℤ) (name : String) (mtype : Encode.MetricType)
      (ms : List (Encode.Metric F)) (series : List (TimeSeries F))
      → mtype ≢ Encode.untyped
      → All SameTexts ms
      → push_metrics float now name (go_type mtype) (map (go_metric value) ms) (map to_pb series)
        ≡ ok (map to_pb (Encode.push_metrics crate now name mtype ms series))
  unfolding push_metrics Encode.push_metrics
  push_metrics-to_pb value now name mtype [] series typed h = refl
  push_metrics-to_pb value now name mtype (m ∷ ms) series typed h =
      rw
        (
          labels_from_metric-to_pb value name m,
          stamp-own_time now m.timestamp_ms,
          push_metric-to_pb value mtype (Encode.labels_from_metric name m) name
              (Encode.stamp now m.timestamp_ms) m series typed h.0,
        )
        (push_metrics-to_pb value now name mtype ms _ typed h.1)

  -- A family that both encoders know, with bounds and quantiles that they print alike.
  abbrev pub Shared : Encode.MetricFamily F → Type 0
  Shared mf = (mf.field_type ≢ Encode.untyped) × All SameTexts mf.metrics

  push_families-to_pb :
      (value : F) (now : ℤ) (mfs : List (Encode.MetricFamily F)) (series : List (TimeSeries F))
      → All Shared mfs
      → push_families float now (map (λ mf. some (go_family value mf)) mfs) (map to_pb series)
        ≡ ok (map to_pb (Encode.push_families crate now mfs series))
  unfolding push_families Encode.push_families
  push_families-to_pb value now [] series h = refl
  push_families-to_pb value now (mf ∷ mfs) series h =
      rw (push_metrics-to_pb value now mf.name mf.field_type mf.metrics series h.0.0 h.0.1)
        (push_families-to_pb value now mfs _ h.1)

  -- Families of counters, gauges, histograms and summaries, at the same moment: the two encoders put
  -- the same request to their protobuf encoders. (A time of zero in the crate is none in Go, both
  -- turn integers into the same floats, and they print the bounds and quantiles that occur alike.)
  pub encode_metric_families-eq :
      (value : F) (now : ℤ) (mfs : List (Encode.MetricFamily F))
      (marshal_request : PbWriteRequest F → Outcome String (List ℕ)) (prost : Encode.Prost F)
      → All Shared mfs
      → (request : PbWriteRequest F) × (encode_metric_families float marshal_request now
            (map (λ mf. some (go_family value mf)) mfs)
          ≡ map_err marshal (marshal_request request))
        × (Encode.encode_metric_families crate prost now mfs ≡ map_err Encode.prost (prost request))
  unfolding encode_metric_families Encode.encode_metric_families Encode.encode_write_request
  encode_metric_families-eq value now mfs marshal_request prost h = (
    record { timeseries = map to_pb (Encode.push_families crate now mfs []) },
    rw (push_families-to_pb value now mfs [] h) refl,
    refl,
  )

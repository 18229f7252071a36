-- ===== src/PromProxy/Encode/Expansion.antt =====
-- What the families of metrics become: one row for each number that is reported.
use proto.Base.{◌≡◌, refl, ap, ◌∙◌, sym, List, [], ◌∷◌, ◌++◌, append_assoc, append-nil, map, String}
use mathlib.Core.List.{map-map, map-append}
use proto.Base.Integers.{ℤ}
use proto.PromProxy.Encode.{
  Label, label, TimeSeries, Prost, Float, MetricType, counter, gauge, summary, untyped, histogram,
  Bucket, Quantile, Metric, MetricFamily, encode_write_request, labels_from_metric, ts_one,
  with_name, suffixed, stamp, push_buckets, push_quantiles, push_metric, push_metrics,
  push_families, encode_metric_families,
}
use proto.PromProxy.Encode.Text.{float_label}

-- One reported number: the name, the labels behind those of the metric, and the value.
pub record Reported (F : Type 0) : Type 0 where
  pub name : String
  pub extra : List Label
  pub value : F

module _ {F : Type 0} (float : Float F) where
  abbrev pub bucket_row : String → Bucket F → Reported F
  bucket_row name b = record {
    name = suffixed name "_bucket";
    extra = label "le" (float_label (float.display b.upper_bound)) ∷ [];
    value = float.from_u64 b.cumulative_count;
  }

  abbrev pub quantile_row : String → Quantile F → Reported F
  quantile_row name q = record {
    name = name;
    extra = label "quantile" (float_label (float.display q.quantile)) ∷ [];
    value = q.value;
  }

  abbrev pub row : String → List Label → F → Reported F
  row name extra value = record { name = name; extra = extra; value = value }

  -- The numbers of a metric, by the type of its family. The source has no case for untyped ones.
  abbrev pub reported : MetricType → (name : String) → Metric F → List (Reported F)
  reported counter name m = row name [] m.counter ∷ []
  reported gauge name m = row name [] m.gauge ∷ []
  reported histogram name m =
      let h = m.histogram in
      row (suffixed name "_sum") [] h.sample_sum
      ∷ row (suffixed name "_count") [] (float.from_u64 h.sample_count)
      ∷ (map (bucket_row name) h.buckets
          ++ row (suffixed name "_bucket") (label "le" "+Inf" ∷ []) (float.from_u64 h.sample_count)
            ∷ [])
  reported summary name m =
      let s = m.summary in
      row (suffixed name "_sum") [] s.sample_sum
      ∷ row (suffixed name "_count") [] (float.from_u64 s.sample_count)
      ∷ map (quantile_row name) s.quantiles
  reported untyped name m = []

  -- The series of a reported number: the name first, then the labels of the metric and those of
  -- the number; one sample, with the metric's own time if that is not zero.
  abbrev pub series_of : (now : ℤ) → Metric F → Reported F → TimeSeries F
  series_of now m r = record {
    labels = label "__name__" r.name ∷ (m.labels ++ r.extra);
    samples = record { value = r.value; timestamp_ms = stamp now m.timestamp_ms } ∷ [];
  }

  abbrev pub metrics_series :
      (now : ℤ) (name : String) → MetricType → List (Metric F) → List (TimeSeries F)
  metrics_series now name mtype [] = []
  metrics_series now name mtype (m ∷ ms) =
      map (series_of now m) (reported mtype name m) ++ metrics_series now name mtype ms

  abbrev pub families_series : (now : ℤ) → List (MetricFamily F) → List (TimeSeries F)
  families_series now [] = []
  families_series now (mf ∷ mfs) =
      metrics_series now mf.name mf.field_type mf.metrics ++ families_series now mfs

map_labels : (ls : List Label) → map (λ (lp : Label). label lp.name lp.value) ls ≡ ls
map_labels [] = refl
map_labels (l ∷ ls) = ap (λ xs. l ∷ xs) (map_labels ls)

module _ {F : Type 0} (float : Float F) where
  -- The base labels of a metric, with another name.
  base_labels :
      (name : String) (m : Metric F) → labels_from_metric name m ≡ label "__name__" name ∷ m.labels
  unfolding labels_from_metric
  base_labels name m = ap (λ ls. label "__name__" name ∷ ls) (map_labels m.labels)

  with_name-labels_from_metric :
      (name other : String) (m : Metric F)
      → with_name (labels_from_metric name m) other ≡ label "__name__" other ∷ m.labels
  unfolding with_name
  with_name-labels_from_metric name other m = rw (base_labels name m)

  push_buckets-map :
      (name : String) (now : ℤ) (m : Metric F) (bs : List (Bucket F)) (series : List (TimeSeries F))
      → push_buckets float (labels_from_metric name m) name (stamp now m.timestamp_ms) bs series
        ≡ series ++ map (λ b. series_of float now m (bucket_row float name b)) bs
  unfolding push_buckets ts_one
  push_buckets-map name now m [] series = sym (append-nil series)
  push_buckets-map name now m (b ∷ bs) series =
      push_buckets-map name now m bs _
      ∙ append_assoc series _ _
      ∙ rw (with_name-labels_from_metric name (suffixed name "_bucket") m)

  push_quantiles-map :
      (name : String) (now : ℤ) (m : Metric F) (qs : List (Quantile F))
      (series : List (TimeSeries F))
      → push_quantiles float (labels_from_metric name m) name (stamp now m.timestamp_ms) qs series
        ≡ series ++ map (λ q. series_of float now m (quantile_row float name q)) qs
  unfolding push_quantiles ts_one
  push_quantiles-map name now m [] series = sym (append-nil series)
  push_quantiles-map name now m (q ∷ qs) series =
      push_quantiles-map name now m qs _
      ∙ append_assoc series _ _
      ∙ rw (with_name-labels_from_metric name name m)

  own :
      (name : String) (now : ℤ) (m : Metric F) (value : F)
      → ts_one (labels_from_metric name m) value (stamp now m.timestamp_ms)
        ≡ series_of float now m (row float name [] value)
  unfolding ts_one
  own name now m value = rw (base_labels name m, append-nil m.labels)

  renamed :
      (name other : String) (now : ℤ) (m : Metric F) (value : F)
      → ts_one (with_name (labels_from_metric name m) other) value (stamp now m.timestamp_ms)
        ≡ series_of float now m (row float other [] value)
  unfolding ts_one
  renamed name other now m value =
      rw (with_name-labels_from_metric name other m, append-nil m.labels)

  labelled :
      (name other : String) (l : Label) (now : ℤ) (m : Metric F) (value : F)
      → ts_one
          (with_name (labels_from_metric name m) other ++ l ∷ [])
          value
          (stamp now m.timestamp_ms)
        ≡ series_of float now m (row float other (l ∷ []) value)
  unfolding ts_one
  labelled name other l now m value = rw (with_name-labels_from_metric name other m)

  push_metric-reported :
      (mtype : MetricType) (name : String) (now : ℤ) (m : Metric F) (series : List (TimeSeries F))
      → push_metric float mtype (labels_from_metric name m) name (stamp now m.timestamp_ms) m series
        ≡ series ++ map (series_of float now m) (reported float mtype name m)
  unfolding push_metric
  push_metric-reported counter name now m series = rw (own name now m m.counter)
  push_metric-reported gauge name now m series = rw (own name now m m.gauge)
  push_metric-reported summary name now m series =
      let s = m.summary in
      rw
        (
          push_quantiles-map name now m s.quantiles,
          renamed name (suffixed name "_sum") now m s.sample_sum,
          renamed name (suffixed name "_count") now m (float.from_u64 s.sample_count),
          map-map (series_of float now m) (quantile_row float name) s.quantiles,
        )
        (simp append_assoc)
  push_metric-reported untyped name now m series = sym (append-nil series)
  push_metric-reported histogram name now m series =
      let h = m.histogram in
      rw
        (
          push_buckets-map name now m h.buckets,
          renamed name (suffixed name "_sum") now m h.sample_sum,
          renamed name (suffixed name "_count") now m (float.from_u64 h.sample_count),
          labelled name (suffixed name "_bucket") (label "le" "+Inf") now m
              (float.from_u64 h.sample_count),
          map-append (series_of float now m) (map (bucket_row float name) h.buckets) _,
          map-map (series_of float now m) (bucket_row float name) h.buckets,
        )
        (simp append_assoc)

  push_metrics-series :
      (now : ℤ) (name : String) (mtype : MetricType) (ms : List (Metric F))
      (series : List (TimeSeries F))
      → push_metrics float now name mtype ms series
        ≡ series ++ metrics_series float now name mtype ms
  unfolding push_metrics
  push_metrics-series now name mtype [] series = sym (append-nil series)
  push_metrics-series now name mtype (m ∷ ms) series =
      push_metrics-series now name mtype ms _
      ∙ rw (push_metric-reported mtype name now m series) (append_assoc series _ _)

  push_families-series :
      (now : ℤ) (mfs : List (MetricFamily F)) (series : List (TimeSeries F))
      → push_families float now mfs series ≡ series ++ families_series float now mfs
  unfolding push_families
  push_families-series now [] series = sym (append-nil series)
  push_families-series now (mf ∷ mfs) series =
      push_families-series now mfs _
      ∙ rw (push_metrics-series now mf.name mf.field_type mf.metrics series)
          (append_assoc series _ _)

  -- The request has these series; of an untyped family, none.
  pub encode_metric_families-families_series :
      (encode : Prost F) (now : ℤ) (mfs : List (MetricFamily F))
      → encode_metric_families float encode now mfs
        ≡ encode_write_request encode (families_series float now mfs)
  unfolding encode_metric_families
  encode_metric_families-families_series encode now mfs =
      ap (encode_write_request encode) (push_families-series now mfs [])

-- ===== src/PromProxy/Encode.antt =====
-- src/prom_proxy/encode.rs: metric families as time series. The numbers of type f64, the protobuf
-- encoder, and the `prometheus` crate, whose metrics are here what their getters return, are
-- parameters.
mod Types
pub mod Text
pub mod Expansion
pub mod Untyped
pub mod Tests
use proto.Base.{
  ℕ, zero, suc, Bool, true, false, not, List, [], ◌∷◌, ◌++◌, map, String, str_eq, if◌then◌else◌,
  Outcome, map_err,
}
use proto.Base.Integers.{ℤ, pos, negsuc}
use proto.PromProxy.Encode.Text.{float_label}
use Prim.Native.String
pub use Types.*

module _ {F : Type 0} where
  abbrev pub to_pb : TimeSeries F → PbTimeSeries F
  to_pb ts = record {
    labels = map (λ (l : Label). record { name = l.name; value = l.value }) ts.labels;
    samples =
        map (λ (s : Sample F). record { value = s.value; timestamp = s.timestamp_ms }) ts.samples;
  }

  -- `fn encode_write_request`.
  unfoldable pub encode_write_request : Prost F → List (TimeSeries F) → Outcome EncodeError (List ℕ)
  encode_write_request encode series =
      map_err prost (encode (record { timeseries = map to_pb series }))

  -- `fn labels_from_metric`.
  unfoldable pub labels_from_metric : (name : String) → Metric F → List Label
  labels_from_metric name m =
      label "__name__" name ∷ map (λ (lp : Label). label lp.name lp.value) m.labels

  -- `fn ts_one`.
  unfoldable pub ts_one : List Label → F → ℤ → TimeSeries F
  ts_one labels value timestamp_ms = record {
    labels = labels;
    samples = record { value = value; timestamp_ms = timestamp_ms } ∷ [];
  }

-- `iter().any(|l| l.name == "__name__")`.
abbrev pub has_name : List Label → Bool
has_name [] = false
has_name (l ∷ ls) = if str_eq l.name "__name__" then true else has_name ls

-- The value of the first label called `__name__` is replaced.
abbrev pub rename_first : String → List Label → List Label
rename_first name [] = []
rename_first name (l ∷ ls) =
    let rest = rename_first name ls in
    if str_eq l.name "__name__" then record l { value = name } ∷ ls else l ∷ rest

-- `fn with_name`.
unfoldable pub with_name : List Label → (name : String) → List Label
with_name labels name =
    if has_name labels then rename_first name labels else label "__name__" name ∷ labels

-- `format!("{name}_sum")` and the like.
abbrev pub suffixed : (name suffix : String) → String
suffixed name suffix = String.◌++◌ name suffix

-- The timestamp of a metric, or the time of the call where it has none.
abbrev pub stamp : (now own : ℤ) → ℤ
stamp now (pos zero) = now
stamp now (pos (suc n)) = pos (suc n)
stamp now (negsuc n) = negsuc n

module _ {F : Type 0} (float : Float F) where
  -- The loop over the buckets of a histogram.
  unfoldable pub push_buckets :
      (base : List Label) (name : String) (ts : ℤ)
      → List (Bucket F)
      → List (TimeSeries F)
      → List (TimeSeries F)
  push_buckets base name ts [] series = series
  push_buckets base name ts (b ∷ bs) series =
      let lbs =
        with_name base (suffixed name "_bucket")
        ++ label "le" (float_label (float.display b.upper_bound)) ∷ [] in
      push_buckets base name ts bs
        (series ++ ts_one lbs (float.from_u64 b.cumulative_count) ts ∷ [])

  -- The loop over the quantiles of a summary.
  unfoldable pub push_quantiles :
      (base : List Label) (name : String) (ts : ℤ)
      → List (Quantile F)
      → List (TimeSeries F)
      → List (TimeSeries F)
  push_quantiles base name ts [] series = series
  push_quantiles base name ts (q ∷ qs) series =
      let lbs =
        with_name base name ++ label "quantile" (float_label (float.display q.quantile)) ∷ [] in
      push_quantiles base name ts qs (series ++ ts_one lbs q.value ts ∷ [])

  -- The arms of the `match` on the type.
  unfoldable pub push_metric :
      MetricType
      → (base : List Label) (name : String) (ts : ℤ) → Metric F
      → List (TimeSeries F)
      → List (TimeSeries F)
  push_metric counter base name ts m series = series ++ ts_one base m.counter ts ∷ []
  push_metric gauge base name ts m series = series ++ ts_one base m.gauge ts ∷ []
  push_metric histogram base name ts m series =
      let h = m.histogram in
      let sum = ts_one (with_name base (suffixed name "_sum")) h.sample_sum ts in
      let count =
        ts_one (with_name base (suffixed name "_count")) (float.from_u64 h.sample_count) ts in
      let inf = with_name base (suffixed name "_bucket") ++ label "le" "+Inf" ∷ [] in
      push_buckets base name ts h.buckets ((series ++ sum ∷ []) ++ count ∷ [])
      ++ ts_one inf (float.from_u64 h.sample_count) ts ∷ []
  push_metric summary base name ts m series =
      let s = m.summary in
      let sum = ts_one (with_name base (suffixed name "_sum")) s.sample_sum ts in
      let count =
        ts_one (with_name base (suffixed name "_count")) (float.from_u64 s.sample_count) ts in
      push_quantiles base name ts s.quantiles ((series ++ sum ∷ []) ++ count ∷ [])
  push_metric untyped base name ts m series = series

  -- The loop over the metrics of a family.
  unfoldable pub push_metrics :
      (now : ℤ) (name : String)
      → MetricType
      → List (Metric F)
      → List (TimeSeries F)
      → List (TimeSeries F)
  push_metrics now name mtype [] series = series
  push_metrics now name mtype (m ∷ ms) series =
      push_metrics now name mtype ms
        (push_metric mtype (labels_from_metric name m) name (stamp now m.timestamp_ms) m series)

  -- The loop over the families.
  unfoldable pub push_families :
      (now : ℤ) → List (MetricFamily F) → List (TimeSeries F) → List (TimeSeries F)
  push_families now [] series = series
  push_families now (mf ∷ mfs) series =
      push_families now mfs (push_metrics now mf.name mf.field_type mf.metrics series)

  -- `fn encode_metric_families`.
  unfoldable pub encode_metric_families :
      Prost F → (now : ℤ) → List (MetricFamily F) → Outcome EncodeError (List ℕ)
  encode_metric_families encode now mfs = encode_write_request encode (push_families now mfs [])

-- ===== src/Go/Encode.antt =====
-- promproxy/encode.go: metric families as a `WriteRequest`. The messages of remote.proto, which the
-- package prompb has, are those of PromProxy.Encode; what dto.Metric and its parts hold is here what
-- their getters return. Numbers of type float64, `Marshal` and `Gather` are parameters.
pub mod Agrees
pub mod Tests
use proto.Base.{
  ℕ, Bool, List, [], ◌∷◌, ◌++◌, map, String, str_eq, if◌then◌else◌, Option, none, some, ◌⊎◌, inl,
  inr, Outcome, ok, err, map_err, ◌>>=◌,
}
use mathlib.Core.Option
use proto.Base.Exec
use proto.Base.Exec.{Exec}
use proto.Base.Integers.{ℤ}
use proto.PromProxy.Encode.{
  Label, Bucket, Histogram, Quantile, Summary, PbLabel, PbSample, PbTimeSeries, PbWriteRequest,
  suffixed,
}
use proto.PromProxy.Protocol.{Snappy}
use proto.Go.Frame.Types.{Error}
use proto.Go.Frame.Codec.{Codec}
use proto.Go.Client.{Unmarshal, ClientError, Session, remote_write_protobuf}

-- `float64(n)` of a uint64, and `strconv.FormatFloat(v, 'f', -1, 64)`.
pub record Float (F : Type 0) : Type 0 where
  pub from_uint64 : ℕ → F
  pub format_float : F → String

-- `dto.MetricType`; `other` are the values that the switch does not name.
pub data MetricType : Type 0 where
  counter gauge summary untyped histogram : MetricType
  other : ℕ → MetricType

-- `TimestampMs` is a pointer.
pub record Metric (F : Type 0) : Type 0 where
  pub labels : List Label
  pub timestamp_ms : Option ℤ
  pub counter : F
  pub gauge : F
  pub untyped : F
  pub histogram : Histogram F
  pub summary : Summary F

pub record MetricFamily (F : Type 0) : Type 0 where
  pub name : String
  pub field_type : MetricType
  pub metrics : List (Metric F)

pub data EncodeError : Type 0 where
  unsupported_metric_type : MetricType → String → EncodeError
  gather marshal : String → EncodeError

abbrev pub pb_label : (name value : String) → PbLabel
pb_label name value = record { name = name; value = value }

-- `labelsFromMetric`.
unfoldable pub labels_from_metric : {F : Type 0} → (name : String) → Metric F → List PbLabel
labels_from_metric name m =
    pb_label "__name__" name ∷ map (λ (lp : Label). pb_label lp.name lp.value) m.labels

-- The loop of `withName`: the labels with the first `__name__` replaced, if there is one.
unfoldable pub renamed : String → List PbLabel → Option (List PbLabel)
renamed name [] = none
renamed name (l ∷ ls) =
    let rest = Option.map (λ out. l ∷ out) (renamed name ls) in
    if str_eq l.name "__name__" then some (record l { value = name } ∷ ls) else rest

abbrev pub or_prepend : Option (List PbLabel) → (name : String) → List PbLabel → List PbLabel
or_prepend (some out) name labels = out
or_prepend none name labels = pb_label "__name__" name ∷ labels

-- `withName`.
unfoldable pub with_name : List PbLabel → (name : String) → List PbLabel
unfolding renamed
with_name labels name = or_prepend (renamed name labels) name labels

-- `appendLabel`.
unfoldable pub append_label : List PbLabel → (name value : String) → List PbLabel
append_label labels name value = labels ++ pb_label name value ∷ []

-- `timeSeries`.
unfoldable pub time_series : {F : Type 0} → List PbLabel → F → ℤ → PbTimeSeries F
time_series labels value ts = record {
  labels = labels;
  samples = record { value = value; timestamp = ts } ∷ [];
}

-- `now`, unless the metric has a time of its own.
abbrev pub stamp : (now : ℤ) → Option ℤ → ℤ
stamp now none = now
stamp now (some own) = own

module _ {F : Type 0} (float : Float F) where
  -- The loop over the buckets.
  unfoldable pub push_buckets :
      (base : List PbLabel) (name : String) (ts : ℤ)
      → List (Bucket F)
      → List (PbTimeSeries F)
      → List (PbTimeSeries F)
  push_buckets base name ts [] tss = tss
  push_buckets base name ts (b ∷ bs) tss =
      let lbs =
        append_label (with_name base (suffixed name "_bucket")) "le"
          (float.format_float b.upper_bound) in
      push_buckets base name ts bs
        (tss ++ time_series lbs (float.from_uint64 b.cumulative_count) ts ∷ [])

  -- The loop over the quantiles.
  unfoldable pub push_quantiles :
      (base : List PbLabel) (name : String) (ts : ℤ)
      → List (Quantile F)
      → List (PbTimeSeries F)
      → List (PbTimeSeries F)
  push_quantiles base name ts [] tss = tss
  push_quantiles base name ts (q ∷ qs) tss =
      let lbs = append_label (with_name base name) "quantile" (float.format_float q.quantile) in
      push_quantiles base name ts qs (tss ++ time_series lbs q.value ts ∷ [])

  -- The `switch` on the type.
  unfoldable pub push_metric :
      MetricType
      → (base : List PbLabel) (name : String) (ts : ℤ) → Metric F
      → List (PbTimeSeries F)
      → Outcome EncodeError (List (PbTimeSeries F))
  push_metric counter base name ts m tss = ok (tss ++ time_series base m.counter ts ∷ [])
  push_metric gauge base name ts m tss = ok (tss ++ time_series base m.gauge ts ∷ [])
  push_metric untyped base name ts m tss = ok (tss ++ time_series base m.untyped ts ∷ [])
  push_metric histogram base name ts m tss =
      let h = m.histogram in
      let sum = time_series (with_name base (suffixed name "_sum")) h.sample_sum ts in
      let count =
        time_series (with_name base (suffixed name "_count")) (float.from_uint64 h.sample_count)
          ts in
      let inf = append_label (with_name base (suffixed name "_bucket")) "le" "+Inf" in
      ok (
        push_buckets base name ts h.buckets ((tss ++ sum ∷ []) ++ count ∷ [])
        ++ time_series inf (float.from_uint64 h.sample_count) ts ∷ [])
  push_metric summary base name ts m tss =
      let s = m.summary in
      let sum = time_series (with_name base (suffixed name "_sum")) s.sample_sum ts in
      let count =
        time_series (with_name base (suffixed name "_count")) (float.from_uint64 s.sample_count)
          ts in
      ok (push_quantiles base name ts s.quantiles ((tss ++ sum ∷ []) ++ count ∷ []))
  push_metric (other n) base name ts m tss = err (unsupported_metric_type (other n) name)

  -- The loop over the metrics of a family.
  unfoldable pub push_metrics :
      (now : ℤ) (name : String)
      → MetricType
      → List (Metric F)
      → List (PbTimeSeries F)
      → Outcome EncodeError (List (PbTimeSeries F))
  push_metrics now name mtype [] tss = ok tss
  push_metrics now name mtype (m ∷ ms) tss = do
    tss' ← push_metric mtype (labels_from_metric name m) name (stamp now m.timestamp_ms) m tss
    push_metrics now name mtype ms tss'

  -- The loop over the families, of which nil ones are passed over.
  unfoldable pub push_families :
      (now : ℤ)
      → List (Option (MetricFamily F))
      → List (PbTimeSeries F)
      → Outcome EncodeError (List (PbTimeSeries F))
  push_families now [] tss = ok tss
  push_families now (none ∷ mfs) tss = push_families now mfs tss
  push_families now (some mf ∷ mfs) tss = do
    tss' ← push_metrics now mf.name mf.field_type mf.metrics tss
    push_families now mfs tss'

  module _ (marshal_request : PbWriteRequest F → Outcome String (List ℕ)) where
    -- `EncodeMetricFamilies`; `now` is the clock.
    unfoldable pub encode_metric_families :
        (now : ℤ) → List (Option (MetricFamily F)) → Outcome EncodeError (List ℕ)
    encode_metric_families now mfs = do
      tss ← push_families now mfs []
      map_err marshal (marshal_request (record { timeseries = tss }))

    -- `GatherAndEncode`; `gathered` is what `g.Gather` returned.
    unfoldable pub gather_and_encode :
        (now : ℤ)
        → (gathered : Outcome String (List (Option (MetricFamily F))))
        → Outcome EncodeError (List ℕ)
    gather_and_encode now gathered = do
      mfs ← map_err gather gathered
      encode_metric_families now mfs

    -- `RemoteWriteGather`: an error of the encoder, or one of the client.
    unfoldable pub remote_write_gather :
        Codec
        → (random : Outcome Error (List ℕ)) → Unmarshal
        → Snappy
        → (cancelled : Option String) (dialled : Outcome Error (Unit {0})) (now : ℤ)
        → (gathered : Outcome String (List (Option (MetricFamily F))))
        → Exec (EncodeError ⊎ ClientError) Session ℕ
    remote_write_gather g random json snappy cancelled dialled now gathered =
        Exec.◌>>=◌ (Exec.lift (map_err inl (gather_and_encode now gathered))) (λ body s.
          let (r, s') = remote_write_protobuf g random json snappy cancelled dialled body s in
          (map_err inr r, s'))

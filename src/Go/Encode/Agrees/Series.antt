-- ===== src/Go/Encode/Agrees/Series.antt =====
-- promproxy/encode.go beside src/prom_proxy/encode.rs: a family, its labels and one series.
use proto.Base.{
  zero, suc, Bool, true, false, ◌≡◌, refl, sym, ap, List, [], ◌∷◌, ◌++◌, map, String, str_eq,
  if◌then◌else◌, Option, none, some, Bool-cases, inl, inr,
}
use mathlib.Core.List.{map-map, map-append}
use mathlib.Core.Option
use proto.Base.Integers.{ℤ, pos, negsuc}
use proto.PromProxy.Encode.{
  has_name, rename_first, Label, label, TimeSeries, PbLabel, PbTimeSeries, PbWriteRequest, Bucket,
  Quantile, to_pb, suffixed,
}
use proto.PromProxy.Encode
use proto.Go.Encode.{
  MetricType, counter, gauge, summary, untyped, histogram, Metric, MetricFamily, pb_label,
  labels_from_metric, renamed, with_name, append_label, time_series, stamp,
}

abbrev pub pb_labels : List Label → List PbLabel
pb_labels ls = map (λ (l : Label). pb_label l.name l.value) ls

-- A time of zero is none: the crate has no other way to leave it out.
abbrev pub own_time : ℤ → Option ℤ
own_time (pos zero) = none
own_time (pos (suc n)) = some (pos (suc n))
own_time (negsuc n) = some (negsuc n)

abbrev pub go_type : Encode.MetricType → MetricType
go_type Encode.counter = counter
go_type Encode.gauge = gauge
go_type Encode.summary = summary
go_type Encode.untyped = untyped
go_type Encode.histogram = histogram

module _ {F : Type 0} where
  -- A metric of the crate, as Go has it; `value` is that of an untyped one.
  abbrev pub go_metric : (value : F) → Encode.Metric F → Metric F
  go_metric value m = record {
    labels = m.labels;
    timestamp_ms = own_time m.timestamp_ms;
    counter = m.counter;
    gauge = m.gauge;
    untyped = value;
    histogram = m.histogram;
    summary = m.summary;
  }

  abbrev pub go_family : (value : F) → Encode.MetricFamily F → MetricFamily F
  go_family value mf = record {
    name = mf.name;
    field_type = go_type mf.field_type;
    metrics = map (go_metric value) mf.metrics;
  }

pub stamp-own_time : (now own : ℤ) → stamp now (own_time own) ≡ Encode.stamp now own
stamp-own_time now (pos zero) = refl
stamp-own_time now (pos (suc n)) = refl
stamp-own_time now (negsuc n) = refl

renamed-pb_labels :
    (ls : List Label) (name : String)
    → renamed name (pb_labels ls)
      ≡ (if has_name ls then some (pb_labels (rename_first name ls)) else none)
unfolding renamed
renamed-pb_labels [] name = refl
renamed-pb_labels (l ∷ ls) name = elim (Bool-cases (str_eq l.name "__name__")) [
  | inl here ↦ rw here refl
  | inr there ↦ rw (there, renamed-pb_labels ls name) (moved (has_name ls))
]
  where
    moved :
        (found : Bool)
        → Option.map
            (λ out. pb_label l.name l.value ∷ out)
            (if found then some (pb_labels (rename_first name ls)) else none)
          ≡ (if found
              then some (pb_label l.name l.value ∷ pb_labels (rename_first name ls))
              else none)
    moved true = refl
    moved false = refl

pub with_name-pb_labels :
    (ls : List Label) (name : String)
    → with_name (pb_labels ls) name ≡ pb_labels (Encode.with_name ls name)
unfolding with_name Encode.with_name
with_name-pb_labels ls name = elim (Bool-cases (has_name ls)) [
  | inl found ↦ rw (renamed-pb_labels ls name, found) refl
  | inr absent ↦ rw (renamed-pb_labels ls name, absent) refl
]

-- One series on both sides.
module _ {F : Type 0} where
  pub time_series-to_pb :
      (ls : List Label) (value : F) (ts : ℤ)
      → time_series (pb_labels ls) value ts ≡ to_pb (Encode.ts_one ls value ts)
  unfolding time_series Encode.ts_one
  time_series-to_pb ls value ts = refl

  pub labels_from_metric-to_pb :
      (value : F) (name : String) (m : Encode.Metric F)
      → labels_from_metric name (go_metric value m) ≡ pb_labels (Encode.labels_from_metric name m)
  unfolding labels_from_metric Encode.labels_from_metric
  labels_from_metric-to_pb value name m =
      ap (λ ls. pb_label "__name__" name ∷ ls) (sym (map-map _ _ m.labels))

  -- A series with a label behind the others.
  pub labelled-to_pb :
      (ls : List Label) (name key text : String) (value : F) (ts : ℤ)
      → time_series (append_label (with_name (pb_labels ls) name) key text) value ts
        ≡ to_pb (Encode.ts_one (Encode.with_name ls name ++ label key text ∷ []) value ts)
  unfolding append_label time_series Encode.ts_one
  labelled-to_pb ls name key text value ts = rw (with_name-pb_labels ls name, map-append) refl

  pub pushed :
      (series : List (TimeSeries F)) (own : PbTimeSeries F) (one : TimeSeries F)
      → own ≡ to_pb one
      → map to_pb series ++ own ∷ [] ≡ map to_pb (series ++ one ∷ [])
  pushed series own one e = rw e (sym (map-append to_pb series (one ∷ [])))

-- ===== src/PromProxy/Encode/Types.antt =====
-- src/prom_proxy/encode.rs: series and the messages that are encoded; the metrics of the
-- `prometheus` crate as its getters return them.
use proto.Base.{ℕ, List, String, Outcome}
use proto.Base.Integers.{ℤ}

pub record Label : Type 0 where
  pub name : String
  pub value : String

pub record Sample (F : Type 0) : Type 0 where
  pub value : F
  pub timestamp_ms : ℤ

pub record TimeSeries (F : Type 0) : Type 0 where
  pub labels : List Label
  pub samples : List (Sample F)

-- `prost::EncodeError`, with its text.
pub data ProstError : Type 0 where
  prost_error : String → ProstError

pub data EncodeError : Type 0 where
  prost : ProstError → EncodeError
  msg : String → EncodeError

-- The messages of the protocol.
pub record PbLabel : Type 0 where
  pub name : String
  pub value : String

pub record PbSample (F : Type 0) : Type 0 where
  pub value : F
  pub timestamp : ℤ

pub record PbTimeSeries (F : Type 0) : Type 0 where
  pub labels : List PbLabel
  pub samples : List (PbSample F)

pub record PbWriteRequest (F : Type 0) : Type 0 where
  pub timeseries : List (PbTimeSeries F)

-- `PbWriteRequest::encode`.
abbrev pub Prost : Type 0 → Type 0
Prost F = PbWriteRequest F → Outcome ProstError (List ℕ)

-- `as f64` of a u64, and `format!("{v}")`.
pub record Float (F : Type 0) : Type 0 where
  pub from_u64 : ℕ → F
  pub display : F → String

pub data MetricType : Type 0 where
  counter gauge summary untyped histogram : MetricType

pub record Bucket (F : Type 0) : Type 0 where
  pub upper_bound : F
  pub cumulative_count : ℕ

pub record Histogram (F : Type 0) : Type 0 where
  pub sample_sum : F
  pub sample_count : ℕ
  pub buckets : List (Bucket F)

pub record Quantile (F : Type 0) : Type 0 where
  pub quantile : F
  pub value : F

pub record Summary (F : Type 0) : Type 0 where
  pub sample_sum : F
  pub sample_count : ℕ
  pub quantiles : List (Quantile F)

-- A getter of a part that is not set returns its default.
pub record Metric (F : Type 0) : Type 0 where
  pub labels : List Label
  pub timestamp_ms : ℤ
  pub counter : F
  pub gauge : F
  pub histogram : Histogram F
  pub summary : Summary F

pub record MetricFamily (F : Type 0) : Type 0 where
  pub name : String
  pub field_type : MetricType
  pub metrics : List (Metric F)

abbrev pub label : (name value : String) → Label
label name value = record { name = name; value = value }

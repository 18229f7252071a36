-- ===== src/PromProxy/Encode/Tests.antt =====
-- Families of metrics on concrete data; a number stands for itself, and every text is "1.50".
use proto.Base.{ℕ, ◌≡◌, refl, List, [], ◌∷◌, ok}
use proto.Base.Integers.{pos}
use proto.PromProxy.Encode.{
  label, Float, Prost, Metric, MetricFamily, untyped, histogram, encode_write_request,
  push_families, encode_metric_families, push_metrics, push_metric, push_buckets,
  labels_from_metric, ts_one, with_name,
}
use proto.PromProxy.Encode.Text.{float_label, trim_end_matches, contains_char}
use proto.PromProxy.Encode.Expansion.{families_series}
use proto.PromProxy.Encode.Untyped.{typed, encode_metric_families-series}

abbrev numbers : Float ℕ
numbers = record { from_u64 = λ n. n; display = λ n. "1.50" }

-- An encoder that writes one byte.
abbrev one_byte : Prost ℕ
one_byte request = ok (1 ∷ [])

abbrev metric : Metric ℕ
metric = record {
  labels = label "job" "demo" ∷ [];
  timestamp_ms = pos 0;
  counter = 3;
  gauge = 4;
  histogram = record {
    sample_sum = 9;
    sample_count = 2;
    buckets = record { upper_bound = 1; cumulative_count = 2 } ∷ [];
  };
  summary = record { sample_sum = 9; sample_count = 2; quantiles = [] };
}

abbrev families : List (MetricFamily ℕ)
families =
    record { name = "h"; field_type = histogram; metrics = metric ∷ [] }
    ∷ record { name = "u"; field_type = untyped; metrics = metric ∷ [] }
    ∷ []

push_run : push_families numbers (pos 5) families [] ≡ families_series numbers (pos 5) families
unfolding push_families push_metrics push_metric push_buckets labels_from_metric ts_one with_name
push_run = refl

bucket_label : float_label "1.50" ≡ "1.5"
unfolding float_label trim_end_matches contains_char
bucket_label = refl

encode_metric_families-series_example :
    encode_metric_families numbers one_byte (pos 5) families
    ≡ encode_write_request one_byte (families_series numbers (pos 5) (typed families))
encode_metric_families-series_example =
    encode_metric_families-series numbers one_byte (pos 5) families

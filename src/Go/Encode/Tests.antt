-- ===== src/Go/Encode/Tests.antt =====
-- promproxy/encode.go on concrete data, and the theorem at a concrete input. A number stands for
-- itself, and every text is "1.5", which the crate prints as "1.50" and then trims.
use proto.Base.{ℕ, ◌≡◌, refl, List, [], ◌∷◌, map, String, some, Outcome, ok, map_err}
use proto.Base.Integers.{pos}
use proto.PromProxy.Encode.{label, PbWriteRequest}
use proto.PromProxy.Encode
use proto.PromProxy.Encode.Text.{float_label, trim_end_matches, contains_char}
use proto.Go.Encode.{Float, marshal, encode_metric_families}
use proto.Go.Encode.Agrees.{encode_metric_families-eq}
use proto.Go.Encode.Agrees.Series.{go_family}

abbrev crate_numbers : Encode.Float ℕ
crate_numbers = record { from_u64 = λ n. n; display = λ n. "1.50" }

abbrev go_numbers : Float ℕ
go_numbers = record { from_uint64 = λ n. n; format_float = λ n. "1.5" }

abbrev one_byte : PbWriteRequest ℕ → Outcome String (List ℕ)
one_byte request = ok (1 ∷ [])

abbrev crate_one_byte : Encode.Prost ℕ
crate_one_byte request = ok (1 ∷ [])

abbrev families : List (Encode.MetricFamily ℕ)
families =
    record {
      name = "h";
      field_type = Encode.histogram;
      metrics =
          record {
            labels = label "job" "demo" ∷ [];
            timestamp_ms = pos 0;
            counter = 3;
            gauge = 4;
            histogram = record {
              sample_sum = 9;
              sample_count = 2;
              buckets = record { upper_bound = 1; cumulative_count = 2 } ∷ [];
            };
            summary = record { sample_sum = 9; sample_count = 2; quantiles = [] };
          }
          ∷ [];
    }
    ∷ []

bound_text : "1.5" ≡ float_label "1.50"
unfolding float_label trim_end_matches contains_char
bound_text = refl

encode_metric_families-eq_example :
    (request : PbWriteRequest ℕ) × (encode_metric_families go_numbers one_byte
        (pos 5)
        (map (λ mf. some (go_family 0 mf)) families)
      ≡ map_err marshal (one_byte request))
    × (Encode.encode_metric_families crate_numbers crate_one_byte (pos 5) families
        ≡ map_err Encode.prost (crate_one_byte request))
encode_metric_families-eq_example =
    encode_metric_families-eq crate_numbers go_numbers (λ n. refl) 0 (pos 5) families one_byte
      crate_one_byte (((λ e. cc e), (((bound_text, tt), tt), tt)), tt)

-- ===== src/Binary/Tests.antt =====
-- The command line on concrete arguments.
use proto.Base.{
  panicked, slice_boundary, ℕ, ◌≡◌, refl, All, length, Option, none, some, List, [], ◌∷◌, String,
  ok, err, Outcome, ◌⊎◌, arith,
}
use proto.TinyFrame.Types.{IsU8, key_len}
use proto.TinyFrame.Samples.{key}
use proto.Binary.Hex.{
  trim_start, trim_end, hex_decode, hex_pairs, from_str_radix_16, digits, hex_digit, is_whitespace,
}
use proto.Binary.Hex.Inverse.{hex_text}
use proto.Binary.{parse_loop, Settings, parse_args}
use proto.TinyFrame.Types.{IoError}
use proto.TinyFrame.Key.{unset, set_encrypt_key, require_encrypt_key}
use proto.PromProxy.Edge.{connect, default_edge_hash_key}
use proto.PromProxy.Samples.{one_hash}
use proto.PromProxy.Server
use proto.PromProxy.Server.State.{new_config, Http, Inner}
use proto.Binary.Main.{join_error, start_server, main, start_server-eq-ok}
use proto.Binary.Arguments.{parse_args-hex_text, parse_args-key}
use proto.Binary.Arguments.Secretkey.{LastGiven, NotGiven}

two_bytes : hex_decode " 0aff " ≡ ok (10 ∷ 255 ∷ [])
unfolding hex_decode trim_end trim_start hex_pairs from_str_radix_16 digits hex_digit is_whitespace
two_bytes = refl

-- A plus sign is taken before a digit, and a character of several bytes may be cut.
plus_sign_runs : hex_decode "+f" ≡ ok (15 ∷ [])
unfolding hex_decode trim_end trim_start hex_pairs from_str_radix_16 digits hex_digit is_whitespace
plus_sign_runs = refl

cut_character_runs : hex_decode "a€" ≡ panicked slice_boundary
unfolding hex_decode trim_end trim_start hex_pairs is_whitespace
cut_character_runs = refl

abbrev parse_any : String → Option String
parse_any text = some text

abbrev no_variables : String → Option String
no_variables name = none

abbrev arguments : List String
arguments =
    "--listen"
    ∷ "0.0.0.0:9100"
    ∷ "--prometheus-url"
    ∷ "http://127.0.0.1:9090"
    ∷ "--redis-url"
    ∷ "redis://127.0.0.1"
    ∷ "--secretkey"
    ∷ hex_text key
    ∷ []

abbrev settings : Settings String
settings = record {
  listen = "0.0.0.0:9100";
  prometheus_url = "http://127.0.0.1:9090";
  redis_url = "redis://127.0.0.1";
  key = key;
}

zeros-IsU8 : All IsU8 key
zeros-IsU8 = ground arith

parsed : parse_args parse_any arguments no_variables ≡ ok settings
parsed =
    parse_args-hex_text parse_any "0.0.0.0:9100" "http://127.0.0.1:9090" "redis://127.0.0.1" key
      "0.0.0.0:9100" no_variables refl refl zeros-IsU8

parse_args-key_example :
    (length key ≡ key_len)
    × All IsU8 key
    × (text : String) × (hex_decode text ≡ ok key)
    × (LastGiven text arguments
        ⊎ (NotGiven arguments × (no_variables "PROM_PROXY_SECRETKEY" ≡ some text)))
parse_args-key_example = parse_args-key parse_any arguments no_variables settings parsed

abbrev upstream : Http
upstream before request = ok (record { status = 204; text = ok "" })

abbrev served : Inner (Unit {0})
served = record {
  config = new_config "0.0.0.0:9100" "http://127.0.0.1:9090" "redis://127.0.0.1";
  http = upstream;
  edges = record { conn = tt; hash_key = "prom_proxy:edges" };
}

started :
    start_server parse_any one_hash arguments no_variables unset upstream
    ≡ ok (some (some key), served)
unfolding start_server set_encrypt_key Server.new connect
started = rw parsed

start_server-eq-ok_example :
    (settings' : Settings String) × (parse_args parse_any arguments no_variables ≡ ok settings')
    × (◌≡◌ {A = Outcome IoError (List ℕ)}
        (require_encrypt_key (some (some key)))
        (ok settings'.key))
    × (length settings'.key ≡ key_len)
    × (served.config ≡ new_config settings'.listen settings'.prometheus_url settings'.redis_url)
    × (connect one_hash settings'.redis_url default_edge_hash_key ≡ ok served.edges)
start_server-eq-ok_example =
    start_server-eq-ok parse_any one_hash arguments no_variables upstream (some (some key)) served
      started

-- A server that was stopped by an error ends the process with status 1, no argument with 2.
stopped_status :
    main parse_any one_hash arguments no_variables unset upstream (λ k i. join_error) ≡ err 1
unfolding main
stopped_status = rw started

usage_status : main parse_any one_hash [] no_variables unset upstream (λ k i. join_error) ≡ err 2
unfolding main start_server parse_args parse_loop
usage_status = refl

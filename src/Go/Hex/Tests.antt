-- ===== src/Go/Hex/Tests.antt =====
-- promproxy/client.go, `ParseSecretKeyHex`, on concrete texts.
use proto.Base.{◌≡◌, refl, String, length, ok, err}
use proto.TinyFrame.Samples.{key}
use proto.Binary.Hex.{is_whitespace, trim_start, trim_end, hex_digit, hex_decode}
use proto.Go.Frame.Types.{key_len}
use proto.Go.Hex.{invalid_byte, odd_length, wrong_length, decode_string, parse_secret_key_hex}
use proto.Go.Hex.Accepts.{parse_secret_key_hex-hex_decode}

abbrev pub zeros_text : String
zeros_text = " 0000000000000000000000000000000000000000000000000000000000000000\n"

pub zeros_parsed : parse_secret_key_hex zeros_text ≡ ok key
unfolding parse_secret_key_hex decode_string trim_start trim_end is_whitespace hex_digit
zeros_parsed = refl

parse_secret_key_hex-hex_decode_example : (length key ≡ key_len) × (hex_decode zeros_text ≡ ok key)
parse_secret_key_hex-hex_decode_example =
    parse_secret_key_hex-hex_decode zeros_text key zeros_parsed

-- A plus sign, which the proxy takes, is no digit for the Go client.
plus_refused : decode_string "+f" ≡ err (invalid_byte 43)
unfolding decode_string hex_digit
plus_refused = refl

short_refused : parse_secret_key_hex "0aFF" ≡ err (wrong_length 2)
unfolding parse_secret_key_hex decode_string trim_start trim_end is_whitespace hex_digit
short_refused = refl

odd_refused : decode_string "0aF" ≡ err odd_length
unfolding decode_string hex_digit
odd_refused = refl

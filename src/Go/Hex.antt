-- ===== src/Go/Hex.antt =====
-- promproxy/client.go, `ParseSecretKeyHex`; `parseSecretKey` of cmd/tframe/manifest.go is the same
-- code. The packages encoding/hex and strings are part of Go: `hex.DecodeString` is written out here,
-- and `strings.TrimSpace` takes off the characters that Rust's `str::trim` does.
pub mod Accepts
pub mod Tests
use proto.Base.{
  ℕ, ◌+◌, ◌*◌, ◌==◌, if◌then◌else◌, Option, none, some, List, [], ◌∷◌, String, length, Outcome, ok,
  err, ◌>>=◌,
}
use Prim.Native.Char.{code}
use Prim.Native.String
use proto.Go.Frame.Types.{key_len}
use proto.Binary.Hex.{trim_start, trim_end, hex_digit}

-- `hex.InvalidByteError` and `hex.ErrLength`, and a key of another length.
pub data KeyError : Type 0 where
  invalid_byte : ℕ → KeyError
  odd_length : KeyError
  wrong_length : ℕ → KeyError

abbrev pub digit : ℕ → Option ℕ → Outcome KeyError ℕ
digit c none = err (invalid_byte c)
digit c (some d) = ok d

-- `hex.DecodeString`: two characters for each byte, a sign is none of them.
unfoldable pub decode_string : String → Outcome KeyError (List ℕ)
decode_string String.[] = ok []
decode_string (String.◌∷◌ c String.[]) = digit (code c) (hex_digit (code c)) >>= λ _. err odd_length
decode_string (String.◌∷◌ c (String.◌∷◌ d s)) = do
  high ← digit (code c) (hex_digit (code c))
  low ← digit (code d) (hex_digit (code d))
  bytes ← decode_string s
  ok ((high * 16 + low) ∷ bytes)

-- `ParseSecretKeyHex`.
unfoldable pub parse_secret_key_hex : String → Outcome KeyError (List ℕ)
parse_secret_key_hex hex_key = do
  raw ← decode_string (trim_end (trim_start hex_key))
  if length raw == key_len then ok raw else err (wrong_length (length raw))

-- ===== src/Binary/Hex.antt =====
-- src/bin/prom_proxy.rs, `hex_decode`: the key as a text of hexadecimal digits.
pub mod Bounds
pub mod Spelling
pub mod Inverse
use proto.Base.{
  ℕ, zero, suc, ◌+◌, ◌-◌, ◌*◌, ◌/◌, ◌%◌, ◌==◌, leb, ltb, ◌&&◌, ◌||◌, if◌then◌else◌, Bool, true,
  false, Option, none, some, List, [], ◌∷◌, String, ◌≡◌, refl, Outcome, ok, err, panicked,
  slice_boundary, ◌>>=◌,
}
use Prim.Native.Char.{Char, code}
use Prim.Native.String
use Prim.Native.String.{len}
use text.Mathlib.Text.{get?}

abbrev within : (low high c : ℕ) → Bool
within low high c = leb low c && leb c high

-- `char::is_whitespace`, by the code point.
unfoldable pub is_whitespace : ℕ → Bool
is_whitespace c =
    within 9 13 c
    || c == 32
    || c == 0x85
    || c == 0xA0
    || c == 0x1680
    || within 0x2000 0x200A c
    || c == 0x2028
    || c == 0x2029
    || c == 0x202F
    || c == 0x205F
    || c == 0x3000

abbrev is_empty : String → Bool
is_empty String.[] = true
is_empty (String.◌∷◌ c s) = false

unfoldable pub trim_start : String → String
trim_start String.[] = String.[]
trim_start (String.◌∷◌ c s) =
    let rest = trim_start s in if is_whitespace (code c) then rest else String.◌∷◌ c s

unfoldable pub trim_end : String → String
trim_end String.[] = String.[]
trim_end (String.◌∷◌ c s) =
    let rest = trim_end s in
    if is_empty rest && is_whitespace (code c) then String.[] else String.◌∷◌ c rest

-- `char::to_digit(16)`, by the code point.
unfoldable pub hex_digit : ℕ → Option ℕ
hex_digit c =
    if within b'0' b'9' c
    then some (c - b'0')
    else if within b'A' b'F' c
    then some (c - b'A' + 10)
    else if within b'a' b'f' c
    then some (c - b'a' + 10)
    else none

abbrev pub push_digit : ℕ → Option ℕ → Outcome String ℕ
push_digit acc none = err "invalid digit found in string"
push_digit acc (some d) =
    if ltb 255 (acc * 16 + d)
    then err "number too large to fit in target type"
    else ok (acc * 16 + d)

unfoldable pub digits : ℕ → String → Outcome String ℕ
digits acc String.[] = ok acc
digits acc (String.◌∷◌ c s) = do acc' ← push_digit acc (hex_digit (code c)); digits acc' s

-- `u8::from_str_radix(_, 16)`: a plus sign may stand before the digits.
unfoldable pub from_str_radix_16 : String → Outcome String ℕ
unfolding digits
from_str_radix_16 String.[] = err "cannot parse integer from empty string"
from_str_radix_16 (String.◌∷◌ c String.[]) = digits 0 (String.◌∷◌ c String.[])
from_str_radix_16 (String.◌∷◌ c (String.◌∷◌ d s)) =
    if code c == b'+' then digits 0 (String.◌∷◌ d s) else digits 0 (String.◌∷◌ c (String.◌∷◌ d s))

-- `&s[i..j]`.
abbrev pub slice_or_panic : Option String → Outcome String String
slice_or_panic none = panicked slice_boundary
slice_or_panic (some part) = ok part

-- The pairs of bytes from position `i`, of which there are `n`.
unfoldable pub hex_pairs : (n i : ℕ) → String → Outcome String (List ℕ)
hex_pairs zero i s = ok []
hex_pairs (suc n) i s = do
  pair ← slice_or_panic (get? s i (i + 2))
  byte ← from_str_radix_16 pair
  bytes ← hex_pairs n (i + 2) s
  ok (byte ∷ bytes)

-- `fn hex_decode`.
unfoldable pub hex_decode : String → Outcome String (List ℕ)
hex_decode s =
    let trimmed = trim_end (trim_start s) in
    if len trimmed % 2 == 0 then hex_pairs (len trimmed / 2) 0 trimmed else err "odd length"

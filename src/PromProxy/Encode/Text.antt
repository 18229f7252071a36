-- ===== src/PromProxy/Encode/Text.antt =====
-- src/prom_proxy/encode.rs, `float_label`: a number's text without trailing zeros.
use proto.Base.{◌==◌, if◌then◌else◌, Bool, true, false, ◌&&◌, String}
use Prim.Native.Char.{Char, code}

abbrev is_empty : String → Bool
is_empty String.[] = true
is_empty (String.◌∷◌ c s) = false

-- `trim_end_matches` of one ASCII character.
unfoldable pub trim_end_matches : String → Char → String
trim_end_matches String.[] c = String.[]
trim_end_matches (String.◌∷◌ x s) c =
    let rest = trim_end_matches s c in
    if is_empty rest && code x == code c then String.[] else String.◌∷◌ x rest

-- `contains` of one character.
unfoldable pub contains_char : String → Char → Bool
contains_char String.[] c = false
contains_char (String.◌∷◌ x s) c =
    let rest = contains_char s c in if code x == code c then true else rest

-- `fn float_label`, of the text that `format!("{v}")` makes.
unfoldable pub float_label : String → String
float_label s = if contains_char s "." then trim_end_matches (trim_end_matches s "0") "." else s

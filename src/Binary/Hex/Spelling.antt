-- ===== src/Binary/Hex/Spelling.antt =====
-- src/bin/prom_proxy.rs: texts that spell bytes by two digits each, and what `hex_decode` makes of
-- them.
use proto.Base.{
  ℕ, ◌+◌, ◌*◌, ◌/◌, ◌%◌, ◌<◌, ◌≤◌, ◌==◌, ◌≡◌, refl, sym, ap, ◌∙◌, true, false, some, List, [], ◌∷◌,
  length, String, ok, arith,
}
use Prim.Native.Char.{Char, code, len_utf8, len_utf8_def}
use Prim.Native.String
use Prim.Native.String.{len}
use Prim.Native.String.len
use Prim.Native.String.append
use text.Mathlib.TextLemmas.{append_assoc}
use text.Mathlib.Text.{get?}
use text.Mathlib.TextPositions.{get?-append_middle, len-append}
use proto.Binary.Hex.{
  is_whitespace, trim_start, trim_end, hex_digit, digits, from_str_radix_16, hex_pairs, hex_decode,
}

-- What a digit is to the decoder.
abbrev pub IsHexChar : ℕ → Char → Type 0
IsHexChar n c =
    (n < 16)
    × (hex_digit (code c) ≡ some n)
    × (len_utf8 c ≡ 1)
    × (is_whitespace (code c) ≡ false)
    × ((code c == b'+') ≡ false)

hex_digit_range : (c n : ℕ) → hex_digit c ≡ some n → (n < 16) × (48 ≤ c) × (c < 128)
unfolding hex_digit
hex_digit_range c n e = ground arith

not_space : (c n : ℕ) → hex_digit c ≡ some n → is_whitespace c ≡ false
unfolding is_whitespace
not_space c n e = ground (arith, hex_digit_range c n e)

pub hex_digit-IsHexChar : (c : Char) (n : ℕ) → hex_digit (code c) ≡ some n → IsHexChar n c
hex_digit-IsHexChar c n e =
    let (small, low, high) = hex_digit_range (code c) n e in
    (small, e, len_utf8_def c ∙ ground arith, not_space (code c) n e, ground arith)

abbrev pub IsPair : Char → Char → ℕ → Type 0
IsPair c d b = (h : ℕ) × (l : ℕ) × IsHexChar h c × IsHexChar l d × (b ≡ h * 16 + l)

-- Two digits for each byte.
abbrev pub Spells : String → List ℕ → Type 0
Spells String.[] [] = Unit
Spells (String.◌∷◌ c (String.◌∷◌ d s)) (b ∷ bs) = IsPair c d b × Spells s bs
Spells _ _ = ⊥

len-pair :
    (c d : Char) (b : ℕ) (s : String)
    → IsPair c d b
    → len (String.◌∷◌ c (String.◌∷◌ d s)) ≡ 2 + len s
len-pair c d b s (h, l, high, low, e) =
    len.cons c (String.◌∷◌ d s)
    ∙ ap (λ k. len_utf8 c + k) (len.cons d s)
    ∙ omega (arith, high.2, low.2)

len-Spells : (s : String) (bs : List ℕ) → Spells s bs → len s ≡ 2 * length bs
len-Spells String.[] [] t = len.nil
len-Spells String.[] (b ∷ bs) t = absurd t
len-Spells (String.◌∷◌ c String.[]) bs t = absurd t
len-Spells (String.◌∷◌ c (String.◌∷◌ d s)) [] t = absurd t
len-Spells (String.◌∷◌ c (String.◌∷◌ d s)) (b ∷ bs) t =
    len-pair c d b s t.0 ∙ omega (arith, len-Spells s bs t.1)

from_str_radix_16-IsPair :
    (c d : Char) (b : ℕ)
    → IsPair c d b
    → from_str_radix_16 (String.◌∷◌ c (String.◌∷◌ d String.[])) ≡ ok b
unfolding from_str_radix_16 digits
from_str_radix_16-IsPair c d b (h, l, high, low, e) =
    rw (high.4, high.1, low.1) (ground (arith, high.0, low.0, e))

-- The pairs behind any prefix of the text.
hex_pairs-Spells :
    (prefix s : String) (bs : List ℕ)
    → Spells s bs
    → hex_pairs (length bs) (len prefix) (String.◌++◌ prefix s) ≡ ok bs
unfolding hex_pairs
hex_pairs-Spells prefix s [] t = refl
hex_pairs-Spells prefix String.[] (b ∷ bs) t = absurd t
hex_pairs-Spells prefix (String.◌∷◌ c String.[]) (b ∷ bs) t = absurd t
hex_pairs-Spells prefix (String.◌∷◌ c (String.◌∷◌ d s)) (b ∷ bs) t =
    let part = String.◌∷◌ c (String.◌∷◌ d String.[]) in
    let whole = String.◌∷◌ c (String.◌∷◌ d s) in
    let glue : String.◌++◌ part s ≡ whole =
      append.cons c (String.◌∷◌ d String.[]) s
      ∙ ap (λ r. String.◌∷◌ c r)
          (append.cons d String.[] s ∙ ap (λ r. String.◌∷◌ d r) (append.nil s)) in
    let two : len part ≡ 2 = len-pair c d b String.[] t.0 ∙ ap (λ k. 2 + k) len.nil in
    let joined : String.◌++◌ prefix whole ≡ String.◌++◌ (String.◌++◌ prefix part) s =
      ap (String.◌++◌ prefix) (sym glue) ∙ sym (append_assoc prefix part s) in
    let size : len prefix + 2 ≡ len (String.◌++◌ prefix part) =
      ap (λ k. len prefix + k) (sym two) ∙ sym (len-append prefix part) in
    let found : get? (String.◌++◌ prefix whole) (len prefix) (len prefix + 2) ≡ some part =
      (λ i. get? (String.◌++◌ prefix (sym glue i)) (len prefix) (len prefix + sym two i))
      ∙ get?-append_middle prefix part s in
    let more : hex_pairs (length bs) (len prefix + 2) (String.◌++◌ prefix whole) ≡ ok bs =
      (λ i. hex_pairs (length bs) (size i) (joined i))
      ∙ hex_pairs-Spells (String.◌++◌ prefix part) s bs t.1 in
    rw (found, from_str_radix_16-IsPair c d b t.0, more)

-- A text that spells bytes, with white space round it or without, is decoded into them.
pub hex_decode-Spells :
    (s : String) (bs : List ℕ) → Spells (trim_end (trim_start s)) bs → hex_decode s ≡ ok bs
unfolding hex_decode
hex_decode-Spells s bs t =
    let trimmed = trim_end (trim_start s) in
    let even : (2 * length bs % 2 == 0) ≡ true = ground arith in
    let half : 2 * length bs / 2 ≡ length bs = omega arith in
    rw (len-Spells trimmed bs t) (
      rw (even, half)
        (ap (λ r. hex_pairs (length bs) 0 r) (sym (append.nil trimmed))
          ∙ ap (λ k. hex_pairs (length bs) k (String.◌++◌ String.[] trimmed)) (sym len.nil)
          ∙ hex_pairs-Spells String.[] trimmed bs t))

-- Nothing is trimmed off such a text.
trim_end-Spells : (s : String) (bs : List ℕ) → Spells s bs → trim_end s ≡ s
unfolding trim_end
trim_end-Spells String.[] [] t = refl
trim_end-Spells String.[] (b ∷ bs) t = absurd t
trim_end-Spells (String.◌∷◌ c String.[]) bs t = absurd t
trim_end-Spells (String.◌∷◌ c (String.◌∷◌ d s)) [] t = absurd t
trim_end-Spells (String.◌∷◌ c (String.◌∷◌ d s)) (b ∷ bs) ((h, l, high, low, e), t) =
    ground (arith, high.3, low.3, trim_end-Spells s bs t)

trim_start-Spells : (s : String) (bs : List ℕ) → Spells s bs → trim_start s ≡ s
unfolding trim_start
trim_start-Spells String.[] [] t = refl
trim_start-Spells String.[] (b ∷ bs) t = absurd t
trim_start-Spells (String.◌∷◌ c String.[]) bs t = absurd t
trim_start-Spells (String.◌∷◌ c (String.◌∷◌ d s)) [] t = absurd t
trim_start-Spells (String.◌∷◌ c (String.◌∷◌ d s)) (b ∷ bs) ((h, l, high, low, e), t) = rw high.3

pub trim-Spells : (s : String) (bs : List ℕ) → Spells s bs → trim_end (trim_start s) ≡ s
trim-Spells s bs t = rw (trim_start-Spells s bs t) (trim_end-Spells s bs t)

-- ===== src/Go/Hex/Accepts.antt =====
-- promproxy/client.go, `ParseSecretKeyHex`, beside `hex_decode` of src/bin/prom_proxy.rs.
use proto.Base.{
  ℕ, ◌==◌, ==_iff, ◌≡◌, refl, List, String, length, Option, none, some, ok, >>=-eq-ok, ok-injective,
  Bool-cases, inl, inr,
}
use mathlib.Core.Path.{subst}
use Prim.Native.Char.{code}
use proto.Binary.Hex.{trim_start, trim_end, hex_digit, hex_decode}
use proto.Binary.Hex.Spelling.{Spells, hex_digit-IsHexChar, hex_decode-Spells}
use proto.Go.Frame.Types.{key_len}
use proto.Go.Hex.{digit, decode_string, parse_secret_key_hex}

digit-eq-ok : (c : ℕ) (d : Option ℕ) (n : ℕ) → digit c d ≡ ok n → d ≡ some n
digit-eq-ok c none n e = cc
digit-eq-ok c (some m) n e = cc

decode_string-Spells : (s : String) (bs : List ℕ) → decode_string s ≡ ok bs → Spells s bs
unfolding decode_string
decode_string-Spells String.[] bs e = subst (Spells String.[]) (ok-injective e) tt
decode_string-Spells (String.◌∷◌ c String.[]) bs e =
    let (_, _, e₁) = >>=-eq-ok (digit (code c) (hex_digit (code c))) _ e in cc e₁
decode_string-Spells (String.◌∷◌ c (String.◌∷◌ d s)) bs e =
    let (h, high, e₁) = >>=-eq-ok (digit (code c) (hex_digit (code c))) _ e in
    let (l, low, e₂) = >>=-eq-ok (digit (code d) (hex_digit (code d))) _ e₁ in
    let (rest, more, e₃) = >>=-eq-ok (decode_string s) _ e₂ in
    subst (Spells (String.◌∷◌ c (String.◌∷◌ d s))) (ok-injective e₃) (
      (
        h,
        l,
        hex_digit-IsHexChar c h (digit-eq-ok _ _ h high),
        hex_digit-IsHexChar d l (digit-eq-ok _ _ l low),
        refl,
      ),
      decode_string-Spells s rest more,
    )

-- A key that the Go client takes from a text is one of 32 bytes, and the proxy takes the same key
-- from the same text.
pub parse_secret_key_hex-hex_decode :
    (s : String) (key : List ℕ)
    → parse_secret_key_hex s ≡ ok key
    → (length key ≡ key_len) × (hex_decode s ≡ ok key)
unfolding parse_secret_key_hex
parse_secret_key_hex-hex_decode s key e =
    let (raw, decoded, e₁) = >>=-eq-ok (decode_string (trim_end (trim_start s))) _ e in
    elim (Bool-cases (length raw == key_len)) [
      | inl fits ↦
          let same : raw ≡ key = ok-injective (rw fits at e₁) in
          subst (λ k. (length k ≡ key_len) × (hex_decode s ≡ ok k)) same
            (
              (==_iff (length raw) key_len).0 fits,
              hex_decode-Spells s raw (decode_string-Spells _ raw decoded),
            )
      | inr other ↦ cc (rw other at e₁)
    ]

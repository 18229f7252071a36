-- ===== src/Binary/Hex/Inverse.antt =====
-- src/bin/prom_proxy.rs: bytes that were written as digits, and are decoded.
use proto.Base.{
  ℕ, zero, suc, ◌/◌, ◌%◌, ◌<◌, ◌≡◌, refl, sym, some, List, [], ◌∷◌, All, String, ok, arith,
}
use Prim.Native.Char.{Char, code}
use proto.TinyFrame.Types.{IsU8}
use proto.Binary.Hex.{hex_digit, hex_decode}
use proto.Binary.Hex.Spelling.{
  IsHexChar, hex_digit-IsHexChar, Spells, trim-Spells, hex_decode-Spells,
}
use mathlib.Core.Path.{subst}

-- The digit of a number below sixteen.
abbrev pub hex_char : ℕ → Char
hex_char zero = "0"
hex_char (suc zero) = "1"
hex_char (suc (suc zero)) = "2"
hex_char (suc (suc (suc zero))) = "3"
hex_char (suc (suc (suc (suc zero)))) = "4"
hex_char (suc (suc (suc (suc (suc zero))))) = "5"
hex_char (suc (suc (suc (suc (suc (suc zero)))))) = "6"
hex_char (suc (suc (suc (suc (suc (suc (suc zero))))))) = "7"
hex_char (suc (suc (suc (suc (suc (suc (suc (suc zero)))))))) = "8"
hex_char (suc (suc (suc (suc (suc (suc (suc (suc (suc zero))))))))) = "9"
hex_char (suc (suc (suc (suc (suc (suc (suc (suc (suc (suc zero)))))))))) = "a"
hex_char (suc (suc (suc (suc (suc (suc (suc (suc (suc (suc (suc zero))))))))))) = "b"
hex_char (suc (suc (suc (suc (suc (suc (suc (suc (suc (suc (suc (suc zero)))))))))))) = "c"
hex_char (suc (suc (suc (suc (suc (suc (suc (suc (suc (suc (suc (suc (suc zero))))))))))))) = "d"
hex_char (suc (suc (suc (suc (suc (suc (suc (suc (suc (suc (suc (suc (suc (suc zero)))))))))))))) =
    "e"
hex_char
      (suc (suc (suc (suc (suc (suc (suc (suc (suc (suc (suc (suc (suc (suc (suc _))))))))))))))) =
    "f"

hex_digit-hex_char : (n : ℕ) → n < 16 → hex_digit (code (hex_char n)) ≡ some n
unfolding hex_digit
hex_digit-hex_char zero h = refl
hex_digit-hex_char (suc zero) h = refl
hex_digit-hex_char (suc (suc zero)) h = refl
hex_digit-hex_char (suc (suc (suc zero))) h = refl
hex_digit-hex_char (suc (suc (suc (suc zero)))) h = refl
hex_digit-hex_char (suc (suc (suc (suc (suc zero))))) h = refl
hex_digit-hex_char (suc (suc (suc (suc (suc (suc zero)))))) h = refl
hex_digit-hex_char (suc (suc (suc (suc (suc (suc (suc zero))))))) h = refl
hex_digit-hex_char (suc (suc (suc (suc (suc (suc (suc (suc zero)))))))) h = refl
hex_digit-hex_char (suc (suc (suc (suc (suc (suc (suc (suc (suc zero))))))))) h = refl
hex_digit-hex_char (suc (suc (suc (suc (suc (suc (suc (suc (suc (suc zero)))))))))) h = refl
hex_digit-hex_char (suc (suc (suc (suc (suc (suc (suc (suc (suc (suc (suc zero))))))))))) h = refl
hex_digit-hex_char (suc (suc (suc (suc (suc (suc (suc (suc (suc (suc (suc (suc zero)))))))))))) h =
    refl
hex_digit-hex_char
      (suc (suc (suc (suc (suc (suc (suc (suc (suc (suc (suc (suc (suc zero))))))))))))) h =
    refl
hex_digit-hex_char
      (suc (suc (suc (suc (suc (suc (suc (suc (suc (suc (suc (suc (suc (suc zero)))))))))))))) h =
    refl
hex_digit-hex_char
      (suc (suc (suc (suc (suc (suc (suc (suc (suc (suc (suc (suc (suc (suc (suc zero)))))))))))))))
      h =
    refl
hex_digit-hex_char
      (suc
        (suc (suc (suc (suc (suc (suc (suc (suc (suc (suc (suc (suc (suc (suc (suc n))))))))))))))))
      h =
    absurd (omega arith)

-- Bytes as lower-case digits.
abbrev pub hex_text : List ℕ → String
hex_text [] = String.[]
hex_text (b ∷ bs) = String.◌∷◌ (hex_char (b / 16)) (String.◌∷◌ (hex_char (b % 16)) (hex_text bs))

hex_char-IsHexChar : (n : ℕ) → n < 16 → IsHexChar n (hex_char n)
hex_char-IsHexChar n h = hex_digit-IsHexChar (hex_char n) n (hex_digit-hex_char n h)

hex_text-Spells : (bs : List ℕ) → All IsU8 bs → Spells (hex_text bs) bs
hex_text-Spells [] h = tt
hex_text-Spells (b ∷ bs) h = (
  (
    b / 16,
    b % 16,
    hex_char-IsHexChar (b / 16) (omega arith),
    hex_char-IsHexChar (b % 16) (omega arith),
    omega arith,
  ),
  hex_text-Spells bs h.1,
)

-- Bytes written as lower-case digits are read back.
pub hex_decode-hex_text : (bs : List ℕ) → All IsU8 bs → hex_decode (hex_text bs) ≡ ok bs
hex_decode-hex_text bs h =
    let spelt = hex_text-Spells bs h in
    hex_decode-Spells (hex_text bs) bs
      (subst (λ s. Spells s bs) (sym (trim-Spells (hex_text bs) bs spelt)) spelt)

-- ===== src/Binary/Hex/Bounds.antt =====
-- src/bin/prom_proxy.rs: what `hex_decode` returns, whatever the text is.
use proto.Base.{
  ℕ, zero, suc, ◌+◌, ◌*◌, ◌/◌, ◌%◌, ◌==◌, ◌≡◌, refl, ap, Option, none, some, List, [], ◌∷◌, length,
  All, String, ok, >>=-eq-ok, Bool-cases, ==_iff, ok-injective, inl, inr, arith,
}
use mathlib.Core.Path.{subst}
use Prim.Native.Char.{code}
use Prim.Native.String.{len}
use text.Mathlib.Text.{get?}
use proto.TinyFrame.Types.{IsU8}
use proto.Binary.Hex.{
  trim_start, trim_end, hex_digit, digits, push_digit, from_str_radix_16, slice_or_panic, hex_pairs,
  hex_decode,
}

push_digit-IsU8 : (acc : ℕ) (d : Option ℕ) (b : ℕ) → push_digit acc d ≡ ok b → IsU8 b
push_digit-IsU8 acc none b e = cc
push_digit-IsU8 acc (some d) b e = ground (arith, e)

digits-IsU8 : (acc : ℕ) (s : String) (b : ℕ) → IsU8 acc → digits acc s ≡ ok b → IsU8 b
unfolding digits
digits-IsU8 acc String.[] b h e = omega (arith, ok-injective e)
digits-IsU8 acc (String.◌∷◌ c s) b h e =
    let (acc', pushed, rest) = >>=-eq-ok (push_digit acc (hex_digit (code c))) _ e in
    digits-IsU8 acc' s b (push_digit-IsU8 acc (hex_digit (code c)) acc' pushed) rest

from_str_radix_16-IsU8 : (s : String) (b : ℕ) → from_str_radix_16 s ≡ ok b → IsU8 b
unfolding from_str_radix_16
from_str_radix_16-IsU8 String.[] b e = cc
from_str_radix_16-IsU8 (String.◌∷◌ c String.[]) b e =
    digits-IsU8 0 (String.◌∷◌ c String.[]) b (omega arith) e
from_str_radix_16-IsU8 (String.◌∷◌ c (String.◌∷◌ d s)) b e = elim (Bool-cases (code c == b'+')) [
  | inl plus ↦ digits-IsU8 0 (String.◌∷◌ d s) b (omega arith) (rw plus at e)
  | inr other ↦ digits-IsU8 0 (String.◌∷◌ c (String.◌∷◌ d s)) b (omega arith) (rw other at e)
]

hex_pairs-IsU8 :
    (n i : ℕ) (s : String) (bytes : List ℕ)
    → hex_pairs n i s ≡ ok bytes
    → (length bytes ≡ n) × All IsU8 bytes
unfolding hex_pairs
hex_pairs-IsU8 zero i s [] e = (refl, tt)
hex_pairs-IsU8 zero i s (b ∷ bs) e = cc
hex_pairs-IsU8 (suc n) i s bytes e =
    let (pair, _, e₁) = >>=-eq-ok (slice_or_panic (get? s i (i + 2))) _ e in
    let (b, parsed, e₂) = >>=-eq-ok (from_str_radix_16 pair) _ e₁ in
    let (bs, more, e₃) = >>=-eq-ok (hex_pairs n (i + 2) s) _ e₂ in
    let (size, fits) = hex_pairs-IsU8 n (i + 2) s bs more in
    subst (λ xs. (length xs ≡ suc n) × All IsU8 xs) (ok-injective e₃)
      (ap suc size, (from_str_radix_16-IsU8 pair b parsed, fits))

-- Whatever the text is: what `hex_decode` returns is one byte for each two bytes of the text without
-- the white space at its ends.
pub hex_decode-IsU8 :
    (s : String) (bytes : List ℕ)
    → hex_decode s ≡ ok bytes
    → (2 * length bytes ≡ len (trim_end (trim_start s))) × All IsU8 bytes
unfolding hex_decode
hex_decode-IsU8 s bytes e =
    let trimmed = trim_end (trim_start s) in
    elim (Bool-cases (len trimmed % 2 == 0)) [
      | inl even ↦
          let (size, fits) = hex_pairs-IsU8 (len trimmed / 2) 0 trimmed bytes (rw even at e) in
          (omega (arith, (==_iff (len trimmed % 2) 0).0 even), fits)
      | inr odd ↦ cc (rw odd at e)
    ]

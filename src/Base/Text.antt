-- ===== src/Base/Text.antt =====
-- `format!("{n}")` of an unsigned integer.
use proto.Base.Tests.{◌==◌, if◌then◌else◌, Bool-cases, ==_iff}
use Prim.Native.Nat.{ℕ, zero, suc, ◌+◌, ◌-◌, ◌*◌, ◌/◌, ◌%◌, ◌^◌, ◌<◌}
use mathlib.Core.Logic.{inl, inr}
use native.Mathlib.Omega.{arith}
use Prim.Native.Char.{Char, code}
use Prim.Native.String.{String}
use mathlib.Core.Path.{◌≡◌, refl, ap, ◌∙◌}

abbrev digit : ℕ → Char
digit zero = "0"
digit (suc zero) = "1"
digit (suc (suc zero)) = "2"
digit (suc (suc (suc zero))) = "3"
digit (suc (suc (suc (suc zero)))) = "4"
digit (suc (suc (suc (suc (suc zero))))) = "5"
digit (suc (suc (suc (suc (suc (suc zero)))))) = "6"
digit (suc (suc (suc (suc (suc (suc (suc zero))))))) = "7"
digit (suc (suc (suc (suc (suc (suc (suc (suc zero)))))))) = "8"
digit (suc (suc (suc (suc (suc (suc (suc (suc (suc _))))))))) = "9"

-- The digits of `n`, the last one first, put before `acc`.
unfoldable pub decimal_loop : ℕ → ℕ → String → String
decimal_loop zero n acc = acc
decimal_loop (suc fuel) n acc =
    let acc' = String.◌∷◌ (digit (n % 10)) acc in
    let rest = decimal_loop fuel (n / 10) acc' in if n / 10 == 0 then acc' else rest

-- A 64-bit number has at most twenty digits.
unfoldable pub decimal : ℕ → String
unfolding decimal_loop
decimal n = decimal_loop 20 n ""

decimal_255 : decimal 255 ≡ "255"
unfolding decimal
decimal_255 = refl

-- The number that a text of digits stands for, behind digits that stand for `front`.
abbrev digit_value : Char → ℕ
digit_value c = code c - 48

abbrev pub value_from : (front : ℕ) → String → ℕ
value_from front String.[] = front
value_from front (String.◌∷◌ c s) = value_from (front * 10 + digit_value c) s

digit_value-digit : (d : ℕ) → d < 10 → digit_value (digit d) ≡ d
digit_value-digit zero h = refl
digit_value-digit (suc zero) h = refl
digit_value-digit (suc (suc zero)) h = refl
digit_value-digit (suc (suc (suc zero))) h = refl
digit_value-digit (suc (suc (suc (suc zero)))) h = refl
digit_value-digit (suc (suc (suc (suc (suc zero))))) h = refl
digit_value-digit (suc (suc (suc (suc (suc (suc zero)))))) h = refl
digit_value-digit (suc (suc (suc (suc (suc (suc (suc zero))))))) h = refl
digit_value-digit (suc (suc (suc (suc (suc (suc (suc (suc zero)))))))) h = refl
digit_value-digit (suc (suc (suc (suc (suc (suc (suc (suc (suc d))))))))) h =
    let last : d ≡ 0 = omega arith in rw last

decimal_loop-value :
    (fuel n : ℕ) (acc : String)
    → n < 10 ^ suc fuel
    → value_from 0 (decimal_loop (suc fuel) n acc) ≡ value_from n acc
unfolding decimal_loop
decimal_loop-value zero n acc bound =
    let last = digit_value-digit (n % 10) (omega arith) in
    let small : n / 10 ≡ 0 = omega arith in
    rw ((==_iff (n / 10) 0).1 small) (ap (λ k. value_from k acc) (omega arith))
decimal_loop-value (suc fuel) n acc bound =
    let last = digit_value-digit (n % 10) (omega arith) in
    let rest = decimal_loop-value fuel (n / 10) (String.◌∷◌ (digit (n % 10)) acc) in
    elim (Bool-cases (n / 10 == 0)) [
      | inl done ↦
          let small = (==_iff (n / 10) 0).0 done in
          rw done (ap (λ k. value_from k acc) (omega arith))
      | inr more ↦ rw more (rest (omega arith) ∙ ap (λ k. value_from k acc) (omega arith))
    ]

-- Twenty digits are enough for a 64-bit number.
pub decimal-value : (n : ℕ) → n < 2 ^ 64 → value_from 0 (decimal n) ≡ n
unfolding decimal
decimal-value n h = decimal_loop-value 19 n "" (omega arith)

-- ===== src/Base/Integers.antt =====
-- `i64` and its conversions with `u64`: integers over the native numbers.
use proto.Base.Tests.{leb, ltb, if◌then◌else◌}
use Prim.Native.Nat.{ℕ, suc, ◌+◌, ◌-◌, ◌^◌, ◌<◌, ◌≤◌}
use mathlib.Core.Path.{◌≡◌}
use native.Mathlib.Omega.{arith}

-- `negsuc n` is −(n + 1).
pub data ℤ : Type 0 where
  pos : ℕ → ℤ
  negsuc : ℕ → ℤ

abbrev pub difference : ℕ → ℕ → ℤ
difference m n = if leb n m then pos (m - n) else negsuc (n - m - 1)

infixl 6 ◌+ℤ◌
abbrev pub ◌+ℤ◌ : ℤ → ℤ → ℤ
pos m +ℤ pos n = pos (m + n)
pos m +ℤ negsuc n = difference m (suc n)
negsuc m +ℤ pos n = difference n (suc m)
negsuc m +ℤ negsuc n = negsuc (suc (m + n))

-- `as i64` of a u64.
unfoldable pub as_i64 : ℕ → ℤ
as_i64 n = if ltb n (2 ^ 63) then pos n else negsuc (2 ^ 64 - 1 - n)

pub as_i64_small : (n : ℕ) → n < 2 ^ 63 → as_i64 n ≡ pos n
unfolding as_i64
as_i64_small n h = ground arith

pub as_i64_large : (n : ℕ) → 2 ^ 63 ≤ n → as_i64 n ≡ negsuc (2 ^ 64 - 1 - n)
unfolding as_i64
as_i64_large n h = ground arith

-- Sums of an integer and numbers.
pub +ℤ-pos-zero : (x : ℤ) → x +ℤ pos 0 ≡ x
+ℤ-pos-zero (pos m) = ground arith
+ℤ-pos-zero (negsuc m) = ground arith

pub +ℤ-pos-pos : (x : ℤ) (m n : ℕ) → x +ℤ pos m +ℤ pos n ≡ x +ℤ pos (m + n)
+ℤ-pos-pos (pos k) m n = ground arith
+ℤ-pos-pos (negsuc k) m n = ground arith

-- ===== src/Base/Bits.antt =====
-- Laws that hold below a small bound, checked by evaluation at every value.
use proto.Base.Tests.{◌==◌, if◌then◌else◌}
use Prim.Native.Nat.{ℕ, zero, suc, ◌<◌}
use mathlib.Core.Path.{◌≡◌}
use mathlib.Core.Option.{Option, none, some}
use native.Mathlib.Omega.{arith}

module _ (left right : ℕ → ℕ) where
  -- The greatest value below the bound at which the two functions differ.
  unfoldable pub difference_below : ℕ → Option ℕ
  difference_below zero = none
  difference_below (suc top) =
      let lower = difference_below top in if left top == right top then lower else some top

  pub eq_below :
      (bound : ℕ) → difference_below bound ≡ none → (x : ℕ) → x < bound → left x ≡ right x
  unfolding difference_below
  eq_below zero agree x below = absurd (omega arith)
  eq_below (suc top) agree x below = grind (arith, eq_below top (ground arith) x)

-- ===== src/Base/Counter.antt =====
-- `next_tx_id`, which both clients of the repository have: the id that is handed out, and the next
-- one, `next_tx.wrapping_add(1).max(1)` on a u64.
use Prim.Native.Nat.{ℕ, zero, suc, ◌+◌, ◌-◌, ◌%◌, ◌^◌, ◌≤◌, ◌<◌, max}
use mathlib.Core.Path.{◌≡◌, ◌∙◌}
use native.Mathlib.Omega.{arith}

unfoldable pub advance : ℕ → ℕ
advance next_tx = max ((next_tx + 1) % 2 ^ 64) 1

-- A transaction id: a u64 that is not zero.
abbrev pub IsTxId : ℕ → Type 0
IsTxId id = (1 ≤ id) × (id < 2 ^ 64)

pub advance-IsTxId : (id : ℕ) → IsTxId (advance id)
unfolding advance
advance-IsTxId id = omega arith

-- The id that is handed out after `n` others.
abbrev pub nth_id : ℕ → ℕ → ℕ
nth_id zero id = id
nth_id (suc n) id = nth_id n (advance id)

nth_id_from : (n id : ℕ) → IsTxId id → nth_id n id ≡ (id - 1 + n) % (2 ^ 64 - 1) + 1
unfolding advance
nth_id_from zero id h = omega arith
nth_id_from (suc n) id h = nth_id_from n (advance id) (advance-IsTxId id) ∙ omega arith

-- A client's n-th id, counted from 0, is n + 1 until all 64-bit numbers but 0 have been used, and
-- then the ids begin again with 1.
pub nth_id_lem : (n : ℕ) → nth_id n 1 ≡ n % (2 ^ 64 - 1) + 1
nth_id_lem n = nth_id_from n 1 (omega arith) ∙ omega arith

-- ===== src/Base/Int.antt =====
-- Go's `int` where the code lets it fall below zero: counters that are only set, compared and
-- decremented. `negsuc n` is -(n + 1).
use Prim.Native.Nat.{ℕ, zero, suc}
use mathlib.Core.Bool.{Bool, true, false}

pub data ℤ : Type 0 where
  pos : ℕ → ℤ
  negsuc : ℕ → ℤ

unfoldable pub pred_ℤ : ℤ → ℤ
pred_ℤ (pos (suc n)) = pos n
pred_ℤ (pos zero) = negsuc zero
pred_ℤ (negsuc n) = negsuc (suc n)

unfoldable pub is_zero : ℤ → Bool
is_zero (pos zero) = true
is_zero (pos (suc n)) = false
is_zero (negsuc n) = false

unfoldable pub is_one : ℤ → Bool
is_one (pos (suc zero)) = true
is_one (pos (suc (suc n))) = false
is_one (pos zero) = false
is_one (negsuc n) = false

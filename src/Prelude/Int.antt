-- ===== src/Prelude/Int.antt =====
-- Signed numbers over the native ones, for differences of two instants.
use Prim.Native.Nat.{ℕ, suc, ◌-◌}
use mathlib.Core.Bool.{Bool}
use parcelpilot_ops_copilot.Prelude.Tests.{ltb, leb, if◌then◌else◌}

-- `negsuc n` is -(n + 1)
pub data ℤ : Type 0 where
  pos : ℕ → ℤ
  negsuc : ℕ → ℤ

abbrev pub pos_part : ℤ → ℕ
pos_part (pos n) = n
pos_part (negsuc n) = 0

abbrev pub neg_part : ℤ → ℕ
neg_part (pos n) = 0
neg_part (negsuc n) = suc n

-- a - b, as an integer
abbrev pub sub_ℕ : ℕ → ℕ → ℤ
sub_ℕ a b = if leb b a then pos (a - b) else negsuc (b - a - 1)

-- `n < z` and `z ≤ n` for a natural number n
abbrev pub nat_lt : ℕ → ℤ → Bool
nat_lt n z = ltb n (pos_part z)

abbrev pub le_nat : ℤ → ℕ → Bool
le_nat z n = leb (pos_part z) n

-- `-z ≤ n`: as a natural number, the part of z below zero is at most n
abbrev pub neg_le_nat : ℤ → ℕ → Bool
neg_le_nat z n = leb (neg_part z) n

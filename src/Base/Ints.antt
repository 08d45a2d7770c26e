-- ===== src/Base/Ints.antt =====
-- Signed machine integers by their sign and size.
use Prim.Native.Nat.{ℕ}
use mathlib.Core.Bool.{Bool, false}
use distributed_logger.Base.Tests.{ltb, ◌==◌}

-- A signed integer: `negsuc n` is -(n + 1).
pub data ℤ : Type 0 where
  pos negsuc : ℕ → ℤ

abbrev pub is_positive : ℤ → Bool
is_positive (pos n) = ltb 0 n
is_positive (negsuc n) = false

-- The integer, or 0 for a negative one.
abbrev pub size_of : ℤ → ℕ
size_of (pos n) = n
size_of (negsuc n) = 0

abbrev pub is_zero : ℤ → Bool
is_zero (pos n) = n == 0
is_zero (negsuc n) = false

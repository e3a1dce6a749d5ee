-- ===== src/Python/Int.antt =====
-- Python's integers.
use nighwatch.Common.{ℕ}

-- `negsuc n` is -(n + 1).
pub data ℤ : Type 0 where
  pos : ℕ → ℤ
  negsuc : ℕ → ℤ

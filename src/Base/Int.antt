-- ===== src/Base/Int.antt =====
-- Signed integers, for Go's `int` and `int64` where a value may be negative.
use Prim.Native.Nat.{ℕ}

-- `negsuc n` is -(n + 1).
pub data ℤ : Type 0 where
  pos : ℕ → ℤ
  negsuc : ℕ → ℤ

-- ===== src/Base/Int.antt =====
-- Signed integers, for `int` values that are compared and stored.
use Prim.Native.Nat.{ℕ}

-- `negsuc n` is -(n + 1).
pub data ℤ : Type 0 where
  pos : ℕ → ℤ
  negsuc : ℕ → ℤ

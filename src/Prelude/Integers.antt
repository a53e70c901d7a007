-- ===== src/Prelude/Integers.antt =====
-- Signed numbers over the native ℕ, for Go's time.Duration.
use Prim.Native.Nat.{ℕ}

-- `negsuc n` is -1 - n.
pub data ℤ : Type 0 where
  pos : ℕ → ℤ
  negsuc : ℕ → ℤ

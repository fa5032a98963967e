-- ===== src/Base/Int.antt =====
-- The integers that a machine word or a content octet string stands for.
use Prim.Native.Nat.{ℕ}

-- `negsuc n` is -(n + 1).
pub data ℤ : Type 0 where
  pos : ℕ → ℤ
  negsuc : ℕ → ℤ

-- ===== src/Prelude/Int.antt =====
-- Signed integers, where the source tests the sign.
use Prim.Native.Nat.{ℕ}

-- `negsuc n` is -(n + 1).
pub data ℤ : Type 0 where
  pos : ℕ → ℤ
  negsuc : ℕ → ℤ

-- A negative number replaced by a default.
abbrev pub or_default : ℕ → ℤ → ℕ
or_default d (pos n) = n
or_default d (negsuc n) = d

-- ===== src/Prelude/Int.antt =====
-- Signed integers over the native numbers, under the library's names, and the bound of an `i64`.
use Prim.Native.Nat.{ℕ}

-- `negsuc n` is -(n + 1).
pub data ℤ : Type 0 where
  pos : ℕ → ℤ
  negsuc : ℕ → ℤ

-- `i64::MAX`
abbrev pub i64_max : ℕ
i64_max = 9223372036854775807

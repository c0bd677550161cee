-- ===== src/Base/Int.antt =====
-- Signed integers over the native numbers, for the sizes and limits that a caller may make negative.
use Prim.Native.Nat.{ℕ, ◌-◌, ◌%◌, ◌^◌}
use reconx.Base.Tests.{ltb, if◌then◌else◌}

-- `negsuc n` is -(n + 1).
pub data ℤ : Type 0 where
  pos : ℕ → ℤ
  negsuc : ℕ → ℤ

-- The integer of a 32-bit pattern.
abbrev pub of_bits32 : ℕ → ℤ
of_bits32 r = if ltb r (2 ^ 31) then pos r else negsuc (2 ^ 32 - 1 - r)

-- Go's conversion int32(n).
unfoldable pub int32 : ℤ → ℤ
int32 (pos n) = of_bits32 (n % 2 ^ 32)
int32 (negsuc n) = of_bits32 (2 ^ 32 - 1 - n % 2 ^ 32)

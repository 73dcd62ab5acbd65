-- ===== src/Common/Int.antt =====
-- The `int` of the source: an integer, with the range of 32 bits as a test.
use Prim.Native.Nat.{ℕ}
use mathlib.Core.Bool.{Bool}
use esp_modem_link.Common.Tests.{leb}

-- `negsuc n` is -(n + 1).
pub data ℤ : Type 0 where
  pos : ℕ → ℤ
  negsuc : ℕ → ℤ

abbrev pub int_max : ℕ
int_max = 0x7fff_ffff

-- The value fits a 32-bit `int`.
abbrev pub is_int : ℤ → Bool
is_int (pos n) = leb n int_max
is_int (negsuc n) = leb n int_max

-- The integer whose absolute value is `n`, and which is not positive.
abbrev pub negate : ℕ → ℤ
negate ℕ.zero = pos 0
negate (ℕ.suc n) = negsuc n

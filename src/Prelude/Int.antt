-- ===== src/Prelude/Int.antt =====
-- Signed integers over the native numbers, and the C conversion of a size to an int.
use Prim.Native.Nat.{ℕ, ◌-◌, ◌%◌, ◌^◌, ◌<◌}
use mathlib.Core.Path.{◌≡◌}
use native.Mathlib.Omega.{arith}
use ion_dtn_contrib.Prelude.Tests.{ltb, if◌then◌else◌}

-- `negsuc n` is -(n + 1).
pub data ℤ : Type 0 where
  pos : ℕ → ℤ
  negsuc : ℕ → ℤ

-- The conversion of an unsigned value to a 32-bit int keeps its low 32 bits.
abbrev pub int_cast : ℕ → ℤ
int_cast n = let w = n % 2 ^ 32 in if ltb w (2 ^ 31) then pos w else negsuc (2 ^ 32 - w - 1)

abbrev pub minus_one : ℤ
minus_one = negsuc 0

pub int_cast-pos : (n : ℕ) → n < 2 ^ 31 → int_cast n ≡ pos n
int_cast-pos n h = ground arith

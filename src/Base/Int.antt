-- ===== src/Base/Int.antt =====
-- Signed integers over the native numbers, under the library's names.
use Prim.Native.Nat.{ℕ, ◌-◌, ◌%◌, ◌^◌}
use mathlib.Core.Bool.{Bool, false}
use functions.Base.Tests.{ltb, if◌then◌else◌}

-- `negsuc n` is -(n + 1).
pub data ℤ : Type 0 where
  pos : ℕ → ℤ
  negsuc : ℕ → ℤ

abbrev pub pos_part : ℤ → ℕ
pos_part (pos n) = n
pos_part (negsuc n) = 0

-- -n
abbrev pub negate : ℕ → ℤ
negate n = if ltb 0 n then negsuc (n - 1) else pos 0

abbrev pub is_positive : ℤ → Bool
is_positive (pos n) = ltb 0 n
is_positive (negsuc n) = false

-- The `int` with the low 32 bits of `n`, read as two's complement.
abbrev pub of_bits : ℕ → ℤ
of_bits n = if ltb n (2 ^ 31) then pos n else negsuc (2 ^ 32 - n - 1)

-- The conversion of a `long` to an `int`.
abbrev pub to_int : ℤ → ℤ
to_int (pos n) = of_bits (n % 2 ^ 32)
to_int (negsuc n) = of_bits (2 ^ 32 - 1 - n % 2 ^ 32)

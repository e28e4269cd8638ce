-- ===== src/Base/Words.antt =====
-- Machine words: an unsigned result is kept below its modulus.
use Prim.Native.Nat.{ℕ, ◌+◌, ◌-◌, ◌*◌, ◌%◌, ◌^◌}

-- `uint32_t` arithmetic. `-` on ℕ stops at 0, so the modulus is added first.
abbrev pub u32 : ℕ → ℕ
u32 n = n % 2 ^ 32

abbrev pub add_u32 : ℕ → ℕ → ℕ
add_u32 a b = (a + b) % 2 ^ 32

abbrev pub sub_u32 : ℕ → ℕ → ℕ
sub_u32 a b = (a + 2 ^ 32 - b) % 2 ^ 32

abbrev pub mul_u32 : ℕ → ℕ → ℕ
mul_u32 a b = (a * b) % 2 ^ 32

-- `UINT_MAX`
abbrev pub uint_max : ℕ
uint_max = 4294967295

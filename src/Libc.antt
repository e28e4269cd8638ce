-- ===== src/Libc.antt =====
-- `strtol` of the C library in base 10, as redis-pool/src calls it. A string is the list of its bytes.
pub mod Decimal
use functions.Base.{
  ℕ, ◌+◌, ◌-◌, ◌*◌, ◌^◌, Bool, true, false, ◌&&◌, ◌||◌, List, [], ◌∷◌, ltb, leb, ◌==◌,
  if◌then◌else◌,
}
use functions.Base.Int.{ℤ, pos, negsuc, negate}

-- `isspace` in the C locale.
abbrev pub is_space : ℕ → Bool
is_space c = c == 32 || (leb 9 c && leb c 13)

abbrev pub is_digit : ℕ → Bool
is_digit c = leb 48 c && leb c 57

-- The digits at the head: their value after `acc`, and how many there are.
pub scan_digits : List ℕ → ℕ → ℕ → ℕ × ℕ
scan_digits [] acc n = (acc, n)
scan_digits (c ∷ s) acc n =
    let rest = scan_digits s (acc * 10 + (c - 48)) (n + 1) in if is_digit c then rest else (acc, n)

-- The value; how many bytes were read, 0 if there is no number; and whether `errno` is ERANGE.
pub record Strtol : Type 0 where
  pub value : ℤ
  pub consumed : ℕ
  pub range_error : Bool

-- A number of 64 bits behind its sign, of which `before` bytes have been read.
unsigned_part : Bool → ℕ → List ℕ → Strtol
unsigned_part minus before s =
    let (n, k) = scan_digits s 0 0 in
    if k == 0
    then record { value = pos 0; consumed = 0; range_error = false }
    else if minus
    then if ltb (2 ^ 63) n
      then record { value = negsuc (2 ^ 63 - 1); consumed = before + k; range_error = true }
      else record { value = negate n; consumed = before + k; range_error = false }
    else if leb (2 ^ 63) n
    then record { value = pos (2 ^ 63 - 1); consumed = before + k; range_error = true }
    else record { value = pos n; consumed = before + k; range_error = false }

signed_part : ℕ → List ℕ → Strtol
unfolding unsigned_part scan_digits
signed_part before [] = unsigned_part false before []
signed_part before (c ∷ s) =
    if c == b'-'
    then unsigned_part true (before + 1) s
    else if c == b'+'
    then unsigned_part false (before + 1) s
    else unsigned_part false before (c ∷ s)

strtol_from : ℕ → List ℕ → Strtol
unfolding signed_part
strtol_from before [] = signed_part before []
strtol_from before (c ∷ s) =
    let rest = strtol_from (before + 1) s in if is_space c then rest else signed_part before (c ∷ s)

unfoldable pub strtol : List ℕ → Strtol
unfolding strtol_from
strtol s = strtol_from 0 s

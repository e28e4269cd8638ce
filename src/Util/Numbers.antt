-- ===== src/Util/Numbers.antt =====
-- util.h: numbers that are printed in decimal are read again, and what a parser accepts fits its type.
use functions.Base.{
  ℕ, ◌^◌, ◌<◌, ◌≡◌, ◌≢◌, refl, true, false, List, [], ◌∷◌, arith, ltb, ◌==◌, length, if◌then◌else◌,
}
use functions.Base.Int.{pos}
use functions.Printf.{decimal}
use functions.Libc.{strtol}
use functions.Libc.Decimal.{strtol-decimal, decimal-ne-nil}
use functions.Util.{
  number, refused, str2i64, narrow, str2i32, str2ui32, str2ui16, str2i16, str2ui8, str2i8,
}

str2i64-read :
    (s : List ℕ) (n : ℕ)
    → s ≢ []
    → strtol s ≡ record { value = pos n; consumed = length s; range_error = false }
    → str2i64 s ≡ number (pos n)
unfolding str2i64
str2i64-read [] n ne e = absurd (ne refl)
str2i64-read (c ∷ s) n ne e = rw (e, whole) refl
  where
    whole : (length (c ∷ s) == length (c ∷ s)) ≡ true
    whole = ground arith

str2i64-decimal : (n : ℕ) → n < 2 ^ 63 → str2i64 (decimal n) ≡ number (pos n)
str2i64-decimal n lt = str2i64-read (decimal n) n (decimal-ne-nil n) (strtol-decimal n lt)

-- A number that fits an unsigned type of 32, 16 or 8 bits is read back from its decimal text by the
-- parser of that type, and one that does not, below `2 ^ 63`, is refused with -2.
pub str2ui-decimal :
    (n : ℕ)
    → n < 2 ^ 63
    → (str2ui32 (decimal n) ≡ (if ltb n (2 ^ 32) then number (pos n) else refused 2))
      × (str2ui16 (decimal n) ≡ (if ltb n (2 ^ 16) then number (pos n) else refused 2))
      × (str2ui8 (decimal n) ≡ (if ltb n (2 ^ 8) then number (pos n) else refused 2))
unfolding str2ui32 str2ui16 str2ui8 narrow
str2ui-decimal n lt = rw (str2i64-decimal n lt) (ground arith)

-- A number that is not negative and fits a signed type of 32, 16 or 8 bits is read back from its decimal
-- text by the parser of that type, and one that does not, below `2 ^ 63`, is refused with -2.
pub str2i-decimal :
    (n : ℕ)
    → n < 2 ^ 63
    → (str2i32 (decimal n) ≡ (if ltb n (2 ^ 31) then number (pos n) else refused 2))
      × (str2i16 (decimal n) ≡ (if ltb n (2 ^ 15) then number (pos n) else refused 2))
      × (str2i8 (decimal n) ≡ (if ltb n (2 ^ 7) then number (pos n) else refused 2))
unfolding str2i32 str2i16 str2i8 narrow
str2i-decimal n lt = rw (str2i64-decimal n lt) (ground arith)

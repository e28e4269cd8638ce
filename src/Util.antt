-- ===== src/Util.antt =====
-- redis-pool/src/util.c and util.h: the text forms of bytes and numbers. A string is the list of its
-- bytes, without the zero that ends it.
pub mod Hex
pub mod Numbers
pub mod Address
pub mod Dump
mod Tests
use functions.Base.{
  ℕ, zero, suc, ◌+◌, ◌-◌, ◌*◌, ◌/◌, ◌%◌, ◌^◌, Bool, true, false, ◌&&◌, ◌||◌, List, [], ◌∷◌, ◌++◌,
  Option, none, some, length, take, ltb, leb, ◌==◌, if◌then◌else◌,
}
use functions.Base.Int.{ℤ, pos, negsuc}
use functions.Libc.{strtol, Strtol}

-- A digit of the table `g_hex_str`.
abbrev pub hex_char : ℕ → ℕ
hex_char d = if ltb d 10 then 48 + d else 87 + d

-- `g_hex_str[b]`
abbrev pub hex_pair : ℕ → List ℕ
hex_pair b = hex_char (b / 16) ∷ hex_char (b % 16) ∷ []

-- `g_printable_char[b]`
abbrev pub printable_char : ℕ → ℕ
printable_char b = if leb 32 b && leb b 126 then b else b'.'

-- The loop of `__dump_hex1`: `out` is what was written, of which the first `k` bytes count. The text, and
-- whether all bytes are in it.
pub dump_loop : Bool → List ℕ → List ℕ → ℕ → ℕ → List ℕ × Bool
dump_loop blank [] out k room = (take k out, true)
dump_loop blank (b ∷ bs) out k room =
    let out' = out ++ hex_pair b in
    let rest =
      dump_loop blank bs (if blank then out' ++ (32 ∷ []) else out') (length out + 2) room in
    if leb (length out + 3) room then rest else (take k out, false)

-- `__dump_hex1` with its text: `none` is its -1.
pub dump_hex1 : List ℕ → ℕ → Bool → Option (List ℕ × Bool)
unfolding dump_loop
dump_hex1 src output_len blank =
    if output_len == 0 then none else some (dump_loop blank src [] 0 output_len)

-- `__to_printable` with its text: the loop writes as many bytes as there is room for.
pub to_printable : List ℕ → ℕ → Option (List ℕ × Bool)
to_printable src output_len =
    if output_len == 0
    then none
    else some (map_printable (take (output_len - 1) src), leb (length src) (output_len - 1))
  where
    map_printable : List ℕ → List ℕ
    map_printable [] = []
    map_printable (b ∷ bs) = printable_char b ∷ map_printable bs

-- The value of a hexadecimal digit.
abbrev pub hex_value : ℕ → Option ℕ
hex_value c =
    if leb 48 c && leb c 57
    then some (c - 48)
    else if leb 65 c && leb c 70
    then some (c - 65 + 10)
    else if leb 97 c && leb c 102
    then some (c - 97 + 10)
    else none

-- What `str2hex` returns: the bytes, as many as it returns, or the code of an error.
pub data Hexed : Type 0 where
  bytes_read : List ℕ → Hexed
  odd_digits bad_char : Hexed

-- The loop of `str2hex`: `half` is the byte that waits for its second digit, in state 2.
pub hex_loop : List ℕ → Option ℕ → List ℕ → Hexed
hex_loop [] none acc = bytes_read acc
hex_loop [] (some h) acc = odd_digits
hex_loop (c ∷ s) none acc =
    let skipped = hex_loop s none acc in
    if c == 32
    then skipped
    else elim (hex_value c) [ none ↦ bad_char | some v ↦ hex_loop s (some ((v * 16) % 2 ^ 8)) acc ]
hex_loop (c ∷ s) (some h) acc = if c == 32 then odd_digits else elim (hex_value c) [
  | none ↦ bad_char
  | some v ↦ hex_loop s none (acc ++ ((h + v) % 2 ^ 8 ∷ []))
]

pub str2hex : List ℕ → Hexed
unfolding hex_loop
str2hex s = hex_loop s none []

-- `lowerstr`
pub lowerstr : List ℕ → List ℕ
lowerstr [] = []
lowerstr (c ∷ s) = (if leb 65 c && leb c 90 then c + 32 else c) ∷ lowerstr s

-- What the number parsers return: the number, or the magnitude of the negative code.
pub data Parsed : Type 0 where
  number : ℤ → Parsed
  refused : ℕ → Parsed

-- `str2i64`, with the length of the string.
pub str2i64 : List ℕ → Parsed
str2i64 [] = refused 1
str2i64 (c ∷ s) =
    let r = strtol (c ∷ s) in
    if r.range_error
    then refused 2
    else if r.consumed == length (c ∷ s)
    then number r.value
    else refused 3

-- Whether a number lies between `-low` and `high`.
abbrev pub within : ℕ → ℕ → ℤ → Bool
within low high (pos n) = leb n high
within low high (negsuc n) = ltb n low

-- The tests behind `str2i64` in the parsers of the narrower types.
pub narrow : ℕ → ℕ → Parsed → Parsed
narrow low high (refused e) = refused e
narrow low high (number z) = if within low high z then number z else refused 2

pub str2i32 : List ℕ → Parsed
unfolding narrow str2i64
str2i32 s = narrow (2 ^ 31) (2 ^ 31 - 1) (str2i64 s)

pub str2ui32 : List ℕ → Parsed
unfolding narrow str2i64
str2ui32 s = narrow 0 (2 ^ 32 - 1) (str2i64 s)

pub str2ui16 : List ℕ → Parsed
unfolding narrow str2i64
str2ui16 s = narrow 0 (2 ^ 16 - 1) (str2i64 s)

pub str2i16 : List ℕ → Parsed
unfolding narrow str2i64
str2i16 s = narrow (2 ^ 15) (2 ^ 15 - 1) (str2i64 s)

pub str2ui8 : List ℕ → Parsed
unfolding narrow str2i64
str2ui8 s = narrow 0 (2 ^ 8 - 1) (str2i64 s)

pub str2i8 : List ℕ → Parsed
unfolding narrow str2i64
str2i8 s = narrow (2 ^ 7) (2 ^ 7 - 1) (str2i64 s)

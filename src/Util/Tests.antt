-- ===== src/Util/Tests.antt =====
-- Tests and witnesses for util.c and util.h.
use functions.Base.{
  ◌++◌, none, ℕ, ◌^◌, ◌≡◌, refl, true, false, List, [], ◌∷◌, some, ltb, if◌then◌else◌, arith,
}
use functions.Base.Int.{pos}
use functions.Printf.{bytes, decimal}
use functions.Util.{
  dump_loop, dump_hex1, to_printable, bytes_read, odd_digits, hex_loop, str2hex, lowerstr, number,
  refused, str2ui32, str2ui16, str2ui8,
}
use functions.Util.Dump.{dumped, repeat, dump_hex2, dump_lines, dump_line, addr_width, hex_number}
use functions.Util.Hex.{str2hex-dump_hex1}
use functions.Util.Numbers.{str2ui-decimal}
use functions.Util.Address.{address, get_ipv4_address, get_ipv4_address-decimal}

dump_blanks : dump_hex1 (1 ∷ 171 ∷ []) 6 true ≡ some (bytes "01 ab", true)
unfolding dump_hex1 dump_loop
dump_blanks = refl

dump_short : dump_hex1 (1 ∷ 171 ∷ []) 5 true ≡ some (bytes "01", false)
unfolding dump_hex1 dump_loop
dump_short = refl

hex_split_pair : str2hex (bytes "0 1") ≡ odd_digits
unfolding str2hex hex_loop
hex_split_pair = refl

lower_mixed : lowerstr (bytes "aBZ[") ≡ bytes "abz["
unfolding lowerstr
lower_mixed = refl

printed : to_printable (65 ∷ 10 ∷ 66 ∷ []) 3 ≡ some (bytes "A.", false)
unfolding to_printable
printed = refl

str2hex-dump_hex1_example :
    (text : List ℕ) × (dump_hex1 (1 ∷ 171 ∷ []) 6 true ≡ some (text, true))
    × (str2hex text ≡ bytes_read (1 ∷ 171 ∷ []))
str2hex-dump_hex1_example =
    str2hex-dump_hex1 true (1 ∷ 171 ∷ []) 6 (omega arith, (omega arith, tt)) (omega arith)
      (omega arith)

str2ui-decimal_example :
    (str2ui32 (decimal 300) ≡ (if ltb 300 (2 ^ 32) then number (pos 300) else refused 2))
    × (str2ui16 (decimal 300) ≡ (if ltb 300 (2 ^ 16) then number (pos 300) else refused 2))
    × (str2ui8 (decimal 300) ≡ (if ltb 300 (2 ^ 8) then number (pos 300) else refused 2))
str2ui-decimal_example = str2ui-decimal 300 (omega arith)

-- Every host is at the address 7.
get_ipv4_address-decimal_example :
    get_ipv4_address true (λ host. some 7) (λ host. none) (bytes "db" ++ (b':' ∷ decimal 6379))
    ≡ address 7 6379
get_ipv4_address-decimal_example =
    get_ipv4_address-decimal (λ host. some 7) (λ host. none) (bytes "db") 7 6379
      ((λ e. absurd (omega arith)), ((λ e. absurd (omega arith)), tt)) refl (omega arith)

-- Two bytes, in the room that the text and its zero need.
two_bytes :
    dump_hex2 (b'a' ∷ 1 ∷ []) 57
    ≡ dumped (bytes "00: 61 01" ++ (repeat 44 32 ++ (b'a' ∷ b'.' ∷ 10 ∷ [])))
unfolding dump_hex2 dump_lines dump_line addr_width hex_number dump_hex1 dump_loop to_printable
two_bytes = refl

-- ===== src/Util/Dump.antt =====
-- util.c: `dump_hex2`, the lines of sixteen bytes with their addresses and their printable characters.
use functions.Base.{
  ℕ, zero, suc, ◌+◌, ◌-◌, ◌*◌, ◌/◌, ◌%◌, Bool, true, false, List, [], ◌∷◌, ◌++◌, Option, none, some,
  length, take, drop, ltb, leb, ◌==◌, if◌then◌else◌,
}
use functions.Printf.{bytes}
use functions.Util.{hex_char, dump_hex1, to_printable}

-- `base_addr_width`: a step for each byte of the last address, of four at most.
unfoldable pub addr_width : ℕ → ℕ → ℕ → ℕ
addr_width zero i width = width
addr_width (suc n) i width =
    let rest = addr_width n (i / 256) (width + 2) in if i / 256 == 0 then width else rest

-- "%0*x", for a number of no more than `width` digits.
unfoldable pub hex_number : ℕ → ℕ → List ℕ
hex_number zero n = []
hex_number (suc width) n = hex_number width (n / 16) ++ (hex_char (n % 16) ∷ [])

abbrev pub repeat : ℕ → ℕ → List ℕ
repeat zero c = []
repeat (suc n) c = c ∷ repeat n c

-- What `dump_hex2` returns: -1, 1 or 0, with the text.
pub data Dumped : Type 0 where
  no_room cut : Dumped
  dumped : List ℕ → Dumped

-- A part that fits, of which it is then known how many bytes are left.
abbrev pub fitting : Option (List ℕ × Bool) → Option (List ℕ)
fitting none = none
fitting (some (text, false)) = none
fitting (some (text, true)) = some text

-- One line for the address `j`, with its line feed, in `room` bytes.
unfoldable pub dump_line : ℕ → ℕ → List ℕ → ℕ → Option (List ℕ)
dump_line width j bs room =
    let head = hex_number width j ++ bytes ": " in
    let pad = (16 - length bs) * 3 in
    let room1 = room - length head in
    if leb room (length head) then none else elim (fitting (dump_hex1 bs room1 true)) [
      | none ↦ none
      | some hex ↦
          let room2 = room1 - length hex in
          let room3 = room2 - pad - 2 in
          if ltb room2 (pad + 3) then none else elim (fitting (to_printable bs room3)) [
            | none ↦ none
            | some chars ↦
                if ltb (room3 - length chars) 2
                then none
                else some (head ++ (hex ++ (repeat pad 32 ++ (32 ∷ 32 ∷ (chars ++ (10 ∷ []))))))
          ]
    ]

-- `n` lines are left.
unfoldable pub dump_lines : ℕ → ℕ → ℕ → List ℕ → ℕ → List ℕ → Dumped
dump_lines zero width j src room acc = dumped acc
dump_lines (suc n) width j src room acc = elim (dump_line width j (take 16 src) room) [
  | none ↦ cut
  | some line ↦ dump_lines n width (j + 16) (drop 16 src) (room - length line) (acc ++ line)
]

unfoldable pub dump_hex2 : List ℕ → ℕ → Dumped
dump_hex2 src output_len =
    if output_len == 0
    then no_room
    else dump_lines ((length src + 15) / 16) (addr_width 4 (length src - 1) 2) 0 src output_len []

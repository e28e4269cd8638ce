-- ===== src/Util/Hex.antt =====
-- util.c: bytes that are dumped in hexadecimal are read back by `str2hex`.
use functions.Base.{
  ℕ, ◌+◌, ◌*◌, ◌/◌, ◌%◌, ◌≤◌, ◌<◌, ◌≡◌, refl, sym, ap, ◌∙◌, Bool, true, false, List, [], ◌∷◌, ◌++◌,
  none, some, arith, length, take, leb, ◌==◌, if◌then◌else◌, Bool-cases, inl, inr, append-nil,
  append_assoc, take_exact, length-append,
}
use functions.Util.{
  hex_char, hex_pair, hex_value, dump_loop, dump_hex1, bytes_read, hex_loop, str2hex,
}

-- A list of bytes.
abbrev pub AreBytes : List ℕ → Type 0
AreBytes [] = Unit {0}
AreBytes (b ∷ bs) = (b < 256) × AreBytes bs

-- The text of some bytes, with a blank between two of them.
spell : Bool → List ℕ → List ℕ
spell blank [] = []
spell blank (b ∷ []) = hex_pair b
spell blank (b ∷ c ∷ bs) = hex_pair b ++ ((if blank then 32 ∷ [] else []) ++ spell blank (c ∷ bs))

hex_value-char : (d : ℕ) → d < 16 → hex_value (hex_char d) ≡ some d
hex_value-char d h = ground arith

hex_char-ne-blank : (d : ℕ) → (hex_char d == 32) ≡ false
hex_char-ne-blank d = ground arith

-- Two digits are read as their byte.
hex_loop-pair :
    (b : ℕ) (s acc : List ℕ)
    → b < 256
    → hex_loop (hex_pair b ++ s) none acc ≡ hex_loop s none (acc ++ (b ∷ []))
unfolding hex_loop
hex_loop-pair b s acc h =
    rw
      (
        hex_char-ne-blank (b / 16),
        hex_value-char (b / 16) (omega arith),
        hex_char-ne-blank (b % 16),
        hex_value-char (b % 16) (omega arith),
      )
      (ap (λ x. hex_loop s none (acc ++ (x ∷ []))) (omega arith))

hex_loop-spell :
    (blank : Bool) (bs acc : List ℕ)
    → AreBytes bs
    → hex_loop (spell blank bs) none acc ≡ bytes_read (acc ++ bs)
unfolding hex_loop spell
hex_loop-spell blank [] acc a = ap bytes_read (sym (append-nil acc))
hex_loop-spell blank (b ∷ []) acc a = hex_loop-pair b [] acc a.0
hex_loop-spell true (b ∷ c ∷ bs) acc a =
    hex_loop-pair b (32 ∷ spell true (c ∷ bs)) acc a.0
    ∙ (hex_loop-spell true (c ∷ bs) (acc ++ (b ∷ [])) a.1
        ∙ ap bytes_read (append_assoc acc (b ∷ []) (c ∷ bs)))
hex_loop-spell false (b ∷ c ∷ bs) acc a =
    hex_loop-pair b (spell false (c ∷ bs)) acc a.0
    ∙ (hex_loop-spell false (c ∷ bs) (acc ++ (b ∷ [])) a.1
        ∙ ap bytes_read (append_assoc acc (b ∷ []) (c ∷ bs)))

-- A dump that is complete has this text.
abbrev Spells : List ℕ → List ℕ × Bool → Type 0
Spells text r = r.1 ≡ true → r.0 ≡ text

taken : (n : ℕ) (xs : List ℕ) → n ≡ length xs → take n xs ≡ xs
taken n xs e = ap (take n) (sym (append-nil xs)) ∙ take_exact n xs [] e

dump_loop-Spells :
    (blank : Bool) (b : ℕ) (bs out : List ℕ) (k room : ℕ)
    → Spells (out ++ spell blank (b ∷ bs)) (dump_loop blank (b ∷ bs) out k room)
unfolding dump_loop spell
dump_loop-Spells blank b [] out k room = elim (Bool-cases (leb (length out + 3) room)) [
  | inl t ↦ rw (t, Spells) (go blank)
  | inr f ↦ rw (f, Spells) (λ e. cc)
]
  where
    longer : length out + 2 ≡ length (out ++ hex_pair b)
    longer = omega (arith, length-append out (hex_pair b))

    go :
        (blank : Bool)
        → true ≡ true
        → take
            (length out + 2)
            (if blank then (out ++ hex_pair b) ++ (32 ∷ []) else out ++ hex_pair b)
          ≡ out ++ hex_pair b
    go true e = take_exact (length out + 2) (out ++ hex_pair b) (32 ∷ []) longer
    go false e = taken (length out + 2) (out ++ hex_pair b) longer
dump_loop-Spells true b (c ∷ bs) out k room = elim (Bool-cases (leb (length out + 3) room)) [
  | inl t ↦
      rw (t, Spells)
        (λ e.
          dump_loop-Spells true c bs ((out ++ hex_pair b) ++ (32 ∷ [])) (length out + 2) room e
          ∙ (append_assoc (out ++ hex_pair b) (32 ∷ []) (spell true (c ∷ bs))
              ∙ append_assoc out (hex_pair b) (32 ∷ spell true (c ∷ bs))))
  | inr f ↦ rw (f, Spells) (λ e. cc)
]
dump_loop-Spells false b (c ∷ bs) out k room = elim (Bool-cases (leb (length out + 3) room)) [
  | inl t ↦
      rw (t, Spells)
        (λ e.
          dump_loop-Spells false c bs (out ++ hex_pair b) (length out + 2) room e
          ∙ append_assoc out (hex_pair b) (spell false (c ∷ bs)))
  | inr f ↦ rw (f, Spells) (λ e. cc)
]

-- Three bytes of room for each byte are enough.
dump_loop_complete :
    (blank : Bool) (bs out : List ℕ) (k room : ℕ)
    → length out + 3 * length bs ≤ room
    → (dump_loop blank bs out k room).1 ≡ true
unfolding dump_loop
dump_loop_complete blank [] out k room h = refl
dump_loop_complete blank (b ∷ bs) out k room h = elim (Bool-cases (leb (length out + 3) room)) [
  | inl t ↦ rw t (dump_loop_complete blank bs _ (length out + 2) room (fits blank))
  | inr f ↦ absurd (ground arith)
]
  where
    fits :
        (blank : Bool)
        → length (if blank then (out ++ hex_pair b) ++ (32 ∷ []) else out ++ hex_pair b)
            + 3 * length bs
          ≤ room
    fits true =
        omega (arith, length-append (out ++ hex_pair b) (32 ∷ []), length-append out (hex_pair b))
    fits false = omega (arith, length-append out (hex_pair b))

loop_text :
    (blank : Bool) (bs : List ℕ) (room : ℕ)
    → 3 * length bs ≤ room
    → (dump_loop blank bs [] 0 room).0 ≡ spell blank bs
unfolding dump_loop spell
loop_text blank [] room h = refl
loop_text blank (b ∷ bs) room h =
    dump_loop-Spells blank b bs [] 0 room
      (dump_loop_complete blank (b ∷ bs) [] 0 room (omega arith))

both : (r : List ℕ × Bool) {text : List ℕ} → r.0 ≡ text → r.1 ≡ true → some r ≡ some (text, true)
both (t, b) e f = cc

-- With three bytes of room for each byte, and some room at all, bytes are dumped in full, with blanks
-- or without, and `str2hex` reads the text back as the same bytes.
pub str2hex-dump_hex1 :
    (blank : Bool) (bs : List ℕ) (output_len : ℕ)
    → AreBytes bs
    → 0 < output_len
    → 3 * length bs ≤ output_len
    → (text : List ℕ) × (dump_hex1 bs output_len blank ≡ some (text, true))
      × (str2hex text ≡ bytes_read bs)
unfolding dump_hex1 str2hex
str2hex-dump_hex1 blank bs output_len a some_room h = (
  spell blank bs,
  rw has_room (
      both (dump_loop blank bs [] 0 output_len) (loop_text blank bs output_len h)
        (dump_loop_complete blank bs [] 0 output_len (omega arith))),
  hex_loop-spell blank bs [] a,
)
  where
    has_room : (output_len == 0) ≡ false
    has_room = ground arith

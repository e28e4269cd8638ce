-- ===== src/Libc/Decimal.antt =====
-- `strtol` reads back what `%d` prints.
use functions.Base.{
  ℕ, zero, suc, ◌+◌, ◌*◌, ◌/◌, ◌%◌, ◌^◌, ◌<◌, ◌≡◌, ◌≢◌, ap, ◌∙◌, true, false, List, [], ◌∷◌, arith,
  ltb, leb, ◌==◌, length, Bool-cases, inl, inr,
}
use functions.Base.Int.{pos}
use functions.Printf.{decimal_from, decimal}
use functions.Libc.{
  is_space, is_digit, scan_digits, unsigned_part, signed_part, strtol_from, strtol,
}

-- Some digits ahead of `out` that stand for `n`.
record Scans (s out : List ℕ) (n : ℕ) : Type 0 where
  digits : ℕ
  scanned : scan_digits s 0 0 ≡ scan_digits out n digits
  counted : length s ≡ digits + length out
  some_digits : 0 < digits

scan_digits-digit :
    (d acc k : ℕ) (s : List ℕ)
    → d < 10
    → scan_digits ((48 + d) ∷ s) acc k ≡ scan_digits s (acc * 10 + d) (k + 1)
unfolding scan_digits
scan_digits-digit d acc k s h =
    rw digit (ap (λ j. scan_digits s (acc * 10 + j) (k + 1)) (omega arith))
  where
    digit : is_digit (48 + d) ≡ true
    digit = ground arith

decimal_from-Scans : (r n : ℕ) (out : List ℕ) → n < r → Scans (decimal_from r n out) out n
unfolding decimal_from
decimal_from-Scans zero n out h = absurd (omega arith)
decimal_from-Scans (suc r) n out h = elim (Bool-cases (ltb n 10)) [
  | inl t ↦ rw t (record {
    digits = 1;
    scanned =
        scan_digits-digit (n % 10) 0 0 out (omega arith)
        ∙ ap (λ j. scan_digits out j 1) (ground arith);
    counted = omega arith;
    some_digits = omega arith;
  })
  | inr f ↦ rw f (go (decimal_from-Scans r (n / 10) ((48 + n % 10) ∷ out) (ground arith)))
]
  where
    go :
        Scans (decimal_from r (n / 10) ((48 + n % 10) ∷ out)) ((48 + n % 10) ∷ out) (n / 10)
        → Scans (decimal_from r (n / 10) ((48 + n % 10) ∷ out)) out n
    go q = record {
      digits = q.digits + 1;
      scanned =
          q.scanned
          ∙ (scan_digits-digit (n % 10) (n / 10) q.digits out (omega arith)
              ∙ ap (λ j. scan_digits out j (q.digits + 1)) (omega arith));
      counted = omega (arith, q.counted);
      some_digits = omega arith;
    }

-- The first byte is a digit.
abbrev Starts : List ℕ → Type 0
Starts [] = ⊥
Starts (c ∷ s) = is_digit c ≡ true

decimal_from-Starts : (r n : ℕ) (out : List ℕ) → n < r → Starts (decimal_from r n out)
unfolding decimal_from
decimal_from-Starts zero n out h = absurd (omega arith)
decimal_from-Starts (suc r) n out h = elim (Bool-cases (ltb n 10)) [
  | inl t ↦ rw t (ground arith)
  | inr f ↦ rw f (decimal_from-Starts r (n / 10) ((48 + n % 10) ∷ out) (ground arith))
]

unsigned_part-digits :
    (s : List ℕ) (n k : ℕ)
    → scan_digits s 0 0 ≡ (n, k)
    → 0 < k
    → n < 2 ^ 63
    → unsigned_part false 0 s ≡ record { value = pos n; consumed = k; range_error = false }
unfolding unsigned_part
unsigned_part-digits s n k e some_digits lt =
    rw (e, unsigned_part, not_none, in_range)
      (ap (λ j. record { value = pos n; consumed = j; range_error = false }) (omega arith))
  where
    not_none : (k == 0) ≡ false
    not_none = ground arith

    in_range : leb (2 ^ 63) n ≡ false
    in_range = ground arith

strtol-digits :
    (s : List ℕ) (n : ℕ)
    → Starts s
    → scan_digits s 0 0 ≡ (n, length s)
    → n < 2 ^ 63
    → strtol s ≡ record { value = pos n; consumed = length s; range_error = false }
unfolding strtol strtol_from signed_part
strtol-digits [] n h e lt = absurd h
strtol-digits (c ∷ s) n h e lt =
    rw (no_space, no_minus, no_plus)
      (unsigned_part-digits (c ∷ s) n (length (c ∷ s)) e (omega arith) lt)
  where
    no_space : is_space c ≡ false
    no_space = ground arith

    no_minus : (c == 45) ≡ false
    no_minus = ground arith

    no_plus : (c == 43) ≡ false
    no_plus = ground arith

-- A number below `2 ^ 63` that is printed in decimal is read back as itself, to the end of the text.
pub strtol-decimal :
    (n : ℕ)
    → n < 2 ^ 63
    → strtol (decimal n)
      ≡ record { value = pos n; consumed = length (decimal n); range_error = false }
unfolding decimal scan_digits
strtol-decimal n lt =
    strtol-digits (decimal n) n (decimal_from-Starts (n + 1) n [] (omega arith)) whole lt
  where
    q : Scans (decimal n) [] n
    q = decimal_from-Scans (n + 1) n [] (omega arith)

    whole : scan_digits (decimal n) 0 0 ≡ (n, length (decimal n))
    whole = q.scanned ∙ ap (λ k. (n, k)) (omega (arith, q.counted))

pub decimal-ne-nil : (n : ℕ) → decimal n ≢ []
unfolding decimal
decimal-ne-nil n =
    starts_ne_nil (decimal_from (n + 1) n []) (decimal_from-Starts (n + 1) n [] (omega arith))
  where
    starts_ne_nil : (s : List ℕ) → Starts s → s ≢ []
    starts_ne_nil [] h = absurd h
    starts_ne_nil (c ∷ s) h = λ e. cc

-- ===== src/Queue/Packets.antt =====
-- queue.cpp: "fill memory" and "read memory" work as if the ring had no end.
use functions.Base.{
  ℕ, zero, suc, ◌+◌, ◌-◌, ◌*◌, ◌/◌, ◌%◌, ◌^◌, ◌≤◌, ◌<◌, ◌≡◌, refl, sym, ap, ◌∙◌, Bool-cases, true,
  inl, inr, ltb, List, ◌++◌, arith, length, bit_and, bit_and-mask, take_all, take,
}
use functions.Queue.{
  Memory, Queue, write_bytes, header, fill, actual_pos, actual_len, round_up, add_u64, extract,
}
use functions.Queue.Ring.{
  ring_write, ring_read, ring_write-append, write-ring_write, mod-add, mod-step,
}
use functions.Queue.Copy.{concat, left_of-zero, memcpy_v-Copied}
use functions.Queue.Wrap.{
  IsPlace, mod-wrap, write_place, read_place, fill_wrapped_lem, extract_wrapped_lem,
}
use native.Mathlib.Decide.{dec_lt}
use native.Mathlib.Nat.{mod-lt, add-mod_right, pow-le-pow_right, mod-mod_of_dvd, dvd_of_mod-eq-zero}

-- The sizes that `init` takes.
pub record IsSize (s : ℕ) : Type 0 where
  pub exponent : ℕ
  pub power : s ≡ 2 ^ exponent
  pub at_least : 10 ≤ exponent
  pub at_most : exponent ≤ 31

eight-dvd-pow : (k : ℕ) → 3 ≤ k → 2 ^ k % 8 ≡ 0
eight-dvd-pow (suc (suc (suc k))) h = omega arith
eight-dvd-pow zero h = absurd (omega arith)
eight-dvd-pow (suc zero) h = absurd (omega arith)
eight-dvd-pow (suc (suc zero)) h = absurd (omega arith)

pub IsSize-bounds : (s : ℕ) → IsSize s → (1024 ≤ s) × (s ≤ 2 ^ 31) × (s % 8 ≡ 0)
IsSize-bounds s v = omega (
  arith,
  v.power,
  pow-le-pow_right {n = 2} (omega arith) {i = 10} {j = v.exponent} v.at_least,
  pow-le-pow_right {n = 2} (omega arith) {i = v.exponent} {j = 31} v.at_most,
  eight-dvd-pow v.exponent (omega (arith, v.at_least)),
)

pub actual_pos_lem : (p s : ℕ) → IsSize s → actual_pos p s ≡ p % s
unfolding actual_pos
actual_pos_lem p s v =
    let b = IsSize-bounds s v in
    let mask : bit_and p ((s + 2 ^ 32 - 1) % 2 ^ 32) ≡ p % s =
      ap (bit_and p) {x = (s + 2 ^ 32 - 1) % 2 ^ 32} {y = 2 ^ v.exponent - 1}
        (omega (arith, b, v.power))
      ∙ (bit_and-mask v.exponent p ∙ ap (λ x. p % x) (sym v.power)) in
    omega (arith, mask, b, mod-lt p {m = s} (omega (arith, b)))

-- A packet's length, its header and the padding.
pub actual_len_lem : (len : ℕ) → len ≤ 2 ^ 30 → actual_len len ≡ (len + 7) / 8 * 8 + 8
unfolding actual_len round_up
actual_len_lem len h = omega arith

-- A header does not come round.
pub header_fits : (p s : ℕ) → IsSize s → p % 8 ≡ 0 → p % s + 8 ≤ s
header_fits p s v h =
    let b = IsSize-bounds s v in
    omega (
      arith,
      b,
      h,
      mod-lt p {m = s} (omega (arith, b)),
      mod-mod_of_dvd 8 p (dvd_of_mod-eq-zero 8 b.2),
    )

-- The bytes of a packet, in the order of their positions.
abbrev pub encode : List ℕ → List ℕ
encode bytes = header (length bytes) ++ bytes

-- The place behind the header.
body-IsPlace : (p s : ℕ) → IsSize s → p % 8 ≡ 0 → IsPlace s (p + 8) (p % s + 8)
body-IsPlace p s v h =
    let fits = header_fits p s v h in
    (
      fits,
      (λ (i : p % s + 8 < s). mod-add p 8 s i),
      λ (e : p % s + 8 ≡ s). mod-wrap p 8 s (omega (arith, IsSize-bounds s v)) e,
    )

-- A packet whose end lies behind its start in the ring does not come round.
end_inside : (p n s : ℕ) → 0 < n → n ≤ s → p % s < (p + n) % s → p % s + n < s
end_inside p n s z h e = elim (dec_lt n s) [
  | yes less ↦ elim (mod-step p n s less) [
    | inl on ↦ omega (arith, mod-lt (p + n) {m = s} (omega arith))
    | inr round ↦ absurd (omega arith)
  ]
  | no whole ↦
      absurd (omega (arith, ap (λ k. (p + k) % s) {x = n} {y = s} (omega arith), add-mod_right p s))
]

-- What a packet needs of the ring and of the positions.
pub record Fits (s p : ℕ) (bytes : List ℕ) : Type 0 where
  pub is_size : IsSize s
  pub aligned : p % 8 ≡ 0
  pub short : length bytes ≤ 2 ^ 30
  pub in_ring : actual_len (length bytes) ≤ s
  pub no_wrap : p + actual_len (length bytes) < 2 ^ 64

-- The test of the code, on the places of a packet's start and end.
start_place : (s p : ℕ) (bytes : List ℕ) → Fits s p bytes → actual_pos p s ≡ p % s
start_place s p bytes f = actual_pos_lem p s f.is_size

inside :
    (s p : ℕ) (bytes : List ℕ)
    → Fits s p bytes
    → ltb (p % s) (actual_pos (add_u64 p (actual_len (length bytes))) s) ≡ true
    → p % s + 8 + length bytes ≤ s
inside s p bytes f t =
    let n = actual_len (length bytes) in
    let e : actual_pos (add_u64 p n) s ≡ (p + n) % s =
      ap (λ x. actual_pos x s) {x = add_u64 p n} {y = p + n} (omega (arith, f.no_wrap))
      ∙ actual_pos_lem (p + n) s f.is_size in
    let l = actual_len_lem (length bytes) f.short in
    let lt : p % s < (p + n) % s = ground (arith, e, t) in
    omega (arith, l, end_inside p n s (omega (arith, l)) f.in_ring lt)

body-Fits : (s p : ℕ) (bytes : List ℕ) → Fits s p bytes → length bytes ≤ s
body-Fits s p bytes f = omega (arith, actual_len_lem (length bytes) f.short, f.in_ring)

ring_header :
    (s p : ℕ) (bytes : List ℕ) (m : Memory)
    → Fits s p bytes
    → write_bytes (p % s) (header (length bytes)) m ≡ ring_write s p (header (length bytes)) m
unfolding header
ring_header s p bytes m f =
    write-ring_write s (header (length bytes)) (p % s) p m refl
      (header_fits p s f.is_size f.aligned)

pub fill_lem :
    (p : ℕ) (pieces : List (List ℕ)) (q : Queue)
    → Fits q.size p (concat pieces)
    → (fill p pieces (length (concat pieces)) q).memory
      ≡ ring_write q.size p (encode (concat pieces)) q.memory
unfolding fill
fill_lem p pieces q f = rw (start_place s p bytes f) (elim (Bool-cases (ltb (p % s) end)) [
  | inl ahead ↦ rw ahead (
      (memcpy_v-Copied pieces (p % s + 8) len 0 m).written
      ∙ (ap (λ bs. write_bytes (p % s + 8) (take len bs) m) (left_of-zero pieces)
          ∙ (ap (λ bs. write_bytes (p % s + 8) bs m) (take_all len bytes (omega arith))
              ∙ (write_place s (p + 8) (p % s + 8) bytes m place (inside s p bytes f ahead)
                  ∙ behind))))
  | inr around ↦ rw around (
      fill_wrapped_lem s (p + 8) (p % s + 8) pieces m positive place (body-Fits s p bytes f)
      ∙ behind)
])
  where
    s : ℕ
    s = q.size

    bytes : List ℕ
    bytes = concat pieces

    len : ℕ
    len = length bytes

    end : ℕ
    end = actual_pos (add_u64 p (actual_len len)) s

    m : Memory
    m = write_bytes (p % s) (header len) q.memory

    positive : 0 < s
    positive = omega (arith, IsSize-bounds s f.is_size)

    place : IsPlace s (p + 8) (p % s + 8)
    place = body-IsPlace p s f.is_size f.aligned

    behind : ring_write s (p + 8) bytes m ≡ ring_write s p (encode bytes) q.memory
    behind =
        ap (ring_write s (p + 8) bytes) (ring_header s p bytes q.memory f)
        ∙ sym (ring_write-append s (header len) bytes p q.memory)

pub extract_lem :
    (p : ℕ) (bytes : List ℕ) (q : Queue)
    → Fits q.size p bytes
    → extract p (length bytes) q ≡ ring_read q.size (p + 8) (length bytes) q.memory
unfolding extract
extract_lem p bytes q f =
    rw (start_place q.size p bytes f) (elim (Bool-cases (ltb (p % q.size) end)) [
      | inl ahead ↦ rw ahead (
          read_place q.size (p + 8) (p % q.size + 8) (length bytes) q.memory place
            (inside q.size p bytes f ahead))
      | inr around ↦ rw around (
          extract_wrapped_lem q.size (p + 8) (p % q.size + 8) (length bytes) q.memory
            (omega (arith, IsSize-bounds q.size f.is_size)) place (body-Fits q.size p bytes f))
    ])
  where
    end : ℕ
    end = actual_pos (add_u64 p (actual_len (length bytes))) q.size

    place : IsPlace q.size (p + 8) (p % q.size + 8)
    place = body-IsPlace p q.size f.is_size f.aligned

-- ===== src/Queue/Wrap.antt =====
-- queue.cpp: the branches of `enqueue` and `dequeue` that may come round the end of the ring.
use functions.Base.{
  ℕ, zero, suc, ◌+◌, ◌-◌, ◌%◌, ◌≤◌, ◌<◌, ◌≡◌, ◌⊎◌, refl, sym, ap, ◌∙◌, Bool-cases, true, inl, inr,
  ltb, if◌then◌else◌, List, [], ◌∷◌, ◌++◌, arith, length, take, drop, take_all, drop_all,
  length-take, length-drop, take-append-drop,
}
use functions.Queue.{
  Memory, write_bytes, read_bytes, memcpy_v, fill_front, fill_wrapped, extract_wrapped,
}
use functions.Queue.Ring.{
  ring_write, ring_read, ring_write-append, ring_read-add, write-ring_write, read-ring_read,
}
use functions.Queue.Copy.{concat, left_of, left_of-zero, memcpy_v-Copied, Copied}
use native.Mathlib.Nat.{mod-eq_of_lt, mod-add-mod, add-mod_right}

-- The place `i` belongs to the position `q`: the end of the ring is its front.
abbrev pub IsPlace : ℕ → ℕ → ℕ → Type 0
IsPlace s q i = (i ≤ s) × (i < s → q % s ≡ i) × (i ≡ s → q % s ≡ 0)

-- `n` bytes fit behind the place `i`, and end the data or the ring.
abbrev IsCut : ℕ → ℕ → ℕ → ℕ → Type 0
IsCut s i n len = (i + n ≤ s) × (n ≤ len) × ((n ≡ len) ⊎ (i + n ≡ s))

pub mod-wrap : (q n s : ℕ) → 0 < s → q % s + n ≡ s → (q + n) % s ≡ 0
mod-wrap q n s h e =
    sym (mod-add-mod q s n)
    ∙ (ap (λ x. x % s) e
        ∙ (ap (λ x. x % s) {x = s} {y = 0 + s} (omega arith)
            ∙ (add-mod_right 0 s ∙ mod-eq_of_lt h)))

pub write_place :
    (s q i : ℕ) (bytes : List ℕ) (m : Memory)
    → IsPlace s q i
    → i + length bytes ≤ s
    → write_bytes i bytes m ≡ ring_write s q bytes m
unfolding write_bytes ring_write
write_place s q i [] m p h = refl
write_place s q i (b ∷ bytes) m p h =
    write-ring_write s (b ∷ bytes) i q m (p.1 (omega arith)) (omega arith)

pub read_place :
    (s q i n : ℕ) (m : Memory) → IsPlace s q i → i + n ≤ s → read_bytes i n m ≡ ring_read s q n m
unfolding read_bytes ring_read
read_place s q i zero m p h = refl
read_place s q i (suc n) m p h = read-ring_read s (suc n) i q m (p.1 (omega arith)) (omega arith)

cut-IsPlace : (s q i n : ℕ) → 0 < s → IsPlace s q i → i + n ≡ s → IsPlace s (q + n) 0
cut-IsPlace s q i n h p e = (omega arith, (λ _. wrapped), λ (z : 0 ≡ s). absurd (omega arith))
  where
    go : (k : ℕ) → k ≡ n → i + k ≡ s → (q + k) % s ≡ 0
    go zero z f = ap (λ x. x % s) {x = q + 0} {y = q} (omega arith) ∙ p.2 (omega arith)
    go (suc k) z f = mod-wrap q (suc k) s h (omega (arith, p.1 (omega arith)))

    wrapped : (q + n) % s ≡ 0
    wrapped = go n refl e

front-IsPlace : (s q i : ℕ) → 0 < s → IsPlace s q i → s ≤ i → IsPlace s q 0
front-IsPlace s q i h p e =
    (omega arith, (λ _. p.2 (omega (arith, p.0))), λ (z : 0 ≡ s). absurd (omega arith))

write_cut :
    (s q i n : ℕ) (bytes : List ℕ) (m : Memory)
    → 0 < s
    → IsPlace s q i
    → IsCut s i n (length bytes)
    → length bytes ≤ s
    → write_bytes 0 (drop n bytes) (write_bytes i (take n bytes) m) ≡ ring_write s q bytes m
unfolding write_bytes ring_write
write_cut s q i n bytes m h p c l =
    ap (write_bytes 0 (drop n bytes))
      (write_place s q i (take n bytes) m p (omega (arith, c.0, taken)))
    ∙ (back c.2
        ∙ (sym (ring_write-append s (take n bytes) (drop n bytes) q m)
            ∙ ap (λ bs. ring_write s q bs m) (take-append-drop n bytes)))
  where
    taken : length (take n bytes) ≡ n
    taken = omega (arith, length-take n bytes, c.1)

    back :
        (n ≡ length bytes) ⊎ (i + n ≡ s)
        → write_bytes 0 (drop n bytes) (ring_write s q (take n bytes) m)
          ≡ ring_write s
              (q + length (take n bytes))
              (drop n bytes)
              (ring_write s q (take n bytes) m)
    back (inl e) = rw (drop_all n bytes (omega arith))
    back (inr e) =
        write_place s (q + n) 0 (drop n bytes) (ring_write s q (take n bytes) m)
          (cut-IsPlace s q i n h p e) (omega (arith, length-drop n bytes))
        ∙ ap (λ k. ring_write s (q + k) (drop n bytes) (ring_write s q (take n bytes) m))
            (sym taken)

read_cut :
    (s q i n len : ℕ) (m : Memory)
    → 0 < s
    → IsPlace s q i
    → IsCut s i n len
    → len ≤ s
    → read_bytes i n m ++ read_bytes 0 (len - n) m ≡ ring_read s q len m
unfolding read_bytes ring_read
read_cut s q i n len m h p c l =
    ap (λ bs. bs ++ read_bytes 0 (len - n) m) (read_place s q i n m p c.0)
    ∙ (ap (λ bs. ring_read s q n m ++ bs) (back (len - n) refl c.2)
        ∙ (sym (ring_read-add s n (len - n) q m)
            ∙ ap (λ k. ring_read s q k m) (omega (arith, c.1))))
  where
    back :
        (k : ℕ) → k ≡ len - n → (n ≡ len) ⊎ (i + n ≡ s) → read_bytes 0 k m ≡ ring_read s (q + n) k m
    back zero e o = refl
    back (suc k) e (inl f) = absurd (omega arith)
    back (suc k) e (inr f) =
        read_place s (q + n) 0 (suc k) m (cut-IsPlace s q i n h p f) (omega arith)

fill_front_lem :
    (pieces : List (List ℕ)) (len offset : ℕ) (m : Memory)
    → fill_front pieces len offset m ≡ write_bytes 0 (take len (left_of pieces offset)) m
unfolding fill_front write_bytes
fill_front_lem pieces zero offset m = refl
fill_front_lem pieces (suc len) offset m =
    let more : ltb 0 (suc len) ≡ true = ground arith in
    rw more (memcpy_v-Copied pieces 0 (suc len) offset m).written

-- `n` of `fill_wrapped` and of `extract_wrapped`.
cut_at : ℕ → ℕ → ℕ → ℕ
cut_at s i len = if ltb len (s - i) then len else s - i

cut_at-IsCut : (s i len : ℕ) → i ≤ s → IsCut s i (cut_at s i len) len
unfolding cut_at
cut_at-IsCut s i len h = ground arith

pub fill_wrapped_lem :
    (s q i : ℕ) (pieces : List (List ℕ)) (m : Memory)
    → 0 < s
    → IsPlace s q i
    → length (concat pieces) ≤ s
    → fill_wrapped s i pieces (length (concat pieces)) m ≡ ring_write s q (concat pieces) m
unfolding fill_wrapped cut_at
fill_wrapped_lem s q i pieces m h p l = elim (Bool-cases (ltb i s)) [
  | inl inside ↦ rw inside (
      fill_front_lem copied.1 (len - n) copied.2 copied.0
      ∙ (ap (λ bs. write_bytes 0 (take (len - n) bs) copied.0) (both.left ∙ ap (drop n) whole)
          ∙ (ap (λ bs. write_bytes 0 bs copied.0)
                (take_all (len - n) (drop n (concat pieces))
                  (omega (arith, length-drop n (concat pieces))))
              ∙ (ap (write_bytes 0 (drop n (concat pieces)))
                    (both.written ∙ ap (λ bs. write_bytes i (take n bs) m) whole)
                  ∙ write_cut s q i n (concat pieces) m h p (cut_at-IsCut s i len p.0) l))))
  | inr outside ↦ rw outside (
      fill_front_lem pieces len 0 m
      ∙ (ap (λ bs. write_bytes 0 (take len bs) m) whole
          ∙ (ap (λ bs. write_bytes 0 bs m) (take_all len (concat pieces) (omega arith))
              ∙ write_place s q 0 (concat pieces) m (front-IsPlace s q i h p (ground arith))
                  (omega arith))))
]
  where
    len : ℕ
    len = length (concat pieces)

    n : ℕ
    n = cut_at s i len

    copied : Memory × List (List ℕ) × ℕ
    copied = memcpy_v i pieces n 0 m

    both : Copied i n (left_of pieces 0) m copied
    both = memcpy_v-Copied pieces i n 0 m

    whole : left_of pieces 0 ≡ concat pieces
    whole = left_of-zero pieces

pub extract_wrapped_lem :
    (s q i len : ℕ) (m : Memory)
    → 0 < s
    → IsPlace s q i
    → len ≤ s
    → extract_wrapped s i len m ≡ ring_read s q len m
unfolding extract_wrapped cut_at read_bytes
extract_wrapped_lem s q i len m h p l = elim (Bool-cases (ltb i s)) [
  | inl inside ↦ rw inside (
      ap (λ bs. read_bytes i (cut_at s i len) m ++ bs) (rest (len - cut_at s i len))
      ∙ read_cut s q i (cut_at s i len) len m h p (cut_at-IsCut s i len p.0) l)
  | inr outside ↦ rw outside (
      rest (len - 0)
      ∙ (ap (λ k. read_bytes 0 k m) (omega arith)
          ∙ read_place s q 0 len m (front-IsPlace s q i h p (ground arith)) (omega arith)))
]
  where
    rest : (k : ℕ) → (if ltb 0 k then read_bytes 0 k m else []) ≡ read_bytes 0 k m
    rest zero = refl
    rest (suc k) = ground arith

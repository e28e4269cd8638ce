-- ===== src/Queue/Copy.antt =====
-- queue.cpp: `memcpy_v` copies the pieces as if they were one, and "fill memory" and "read memory" work
-- as if the ring had no end.
use functions.Base.{
  ℕ, suc, ◌+◌, ◌-◌, ◌≤◌, ◌<◌, ◌≡◌, refl, sym, ap, ◌∙◌, false, ◌==◌, List, [], ◌∷◌, ◌++◌, arith,
  length, take, drop, take_all, length-drop, take-append_left, take-append_right, drop-append_left,
  drop-append_right, take-nil, drop-nil, drop-drop,
}
use native.Mathlib.Decide.{dec_lt}
use functions.Queue.{Memory, store_byte, write_bytes, memcpy_v, len_to_copy}

-- The pieces as one.
abbrev pub concat : List (List ℕ) → List ℕ
concat [] = []
concat (piece ∷ pieces) = piece ++ concat pieces

-- What is left of the pieces behind the offset into the first of them.
abbrev pub left_of : List (List ℕ) → ℕ → List ℕ
left_of [] offset = []
left_of (piece ∷ pieces) offset = drop offset piece ++ concat pieces

-- `n` bytes were copied, and the others are left.
pub record Copied (dst n : ℕ) (bytes : List ℕ) (m : Memory) (r : Memory × List (List ℕ) × ℕ)
    : Type 0 where
  pub written : r.0 ≡ write_bytes dst (take n bytes) m
  pub left : left_of r.1 r.2 ≡ drop n bytes

write-append :
    (xs ys : List ℕ) (i : ℕ) (m : Memory)
    → write_bytes i (xs ++ ys) m ≡ write_bytes (i + length xs) ys (write_bytes i xs m)
unfolding write_bytes
write-append [] ys i m = ap (λ j. write_bytes j ys m) (omega arith)
write-append (x ∷ xs) ys i m =
    write-append xs ys (suc i) (store_byte i x m)
    ∙ ap (λ j. write_bytes j ys (write_bytes (suc i) xs (store_byte i x m))) (omega arith)

pub left_of-zero : (pieces : List (List ℕ)) → left_of pieces 0 ≡ concat pieces
left_of-zero [] = refl
left_of-zero (piece ∷ pieces) = refl

len_to_copy_within : (k offset n : ℕ) → n ≤ k - offset → len_to_copy k offset n ≡ n
unfolding len_to_copy
len_to_copy_within k offset n h = ground arith

len_to_copy_beyond : (k offset n : ℕ) → k - offset < n → len_to_copy k offset n ≡ k - offset
unfolding len_to_copy
len_to_copy_beyond k offset n h = ground arith

-- The copy ends in a piece, or takes all that is left of it and goes on.
memcpy_v_within :
    (piece : List ℕ) (pieces : List (List ℕ)) (dst n offset : ℕ) (m : Memory)
    → n ≤ length piece - offset
    → memcpy_v dst (piece ∷ pieces) n offset m
      ≡ (write_bytes dst (take n (drop offset piece)) m, piece ∷ pieces, offset + n)
unfolding memcpy_v
memcpy_v_within piece pieces dst n offset m h =
    rw (len_to_copy_within (length piece) offset n h) (ground arith)

memcpy_v_beyond :
    (piece : List ℕ) (pieces : List (List ℕ)) (dst n offset : ℕ) (m : Memory)
    → length piece - offset < n
    → memcpy_v dst (piece ∷ pieces) n offset m
      ≡ memcpy_v
          (dst + (length piece - offset))
          pieces
          (n - (length piece - offset))
          0
          (write_bytes dst (drop offset piece) m)
unfolding memcpy_v
memcpy_v_beyond piece pieces dst n offset m h =
    let more : (n - (length piece - offset) == 0) ≡ false = ground arith in
    let whole : take (length piece - offset) (drop offset piece) ≡ drop offset piece =
      take_all (length piece - offset) (drop offset piece)
        (omega (arith, length-drop offset piece)) in
    rw (len_to_copy_beyond (length piece) offset n h, more, whole)

-- Two writes one behind the other.
written_beyond :
    (xs ys : List ℕ) (dst n k : ℕ) (m : Memory)
    → length xs ≡ k
    → k < n
    → write_bytes (dst + k) (take (n - k) ys) (write_bytes dst xs m)
      ≡ write_bytes dst (take n (xs ++ ys)) m
written_beyond xs ys dst n k m e h =
    ap (λ j. write_bytes (dst + j) (take (n - j) ys) (write_bytes dst xs m)) (sym e)
    ∙ (sym (write-append xs (take (n - length xs) ys) dst m)
        ∙ ap (λ bs. write_bytes dst bs m) (sym (take-append_right n xs ys (omega arith))))

pub memcpy_v-Copied :
    (pieces : List (List ℕ)) (dst n offset : ℕ) (m : Memory)
    → Copied dst n (left_of pieces offset) m (memcpy_v dst pieces n offset m)
unfolding memcpy_v write_bytes
memcpy_v-Copied [] dst n offset m = record {
  written = ap (λ bs. write_bytes dst bs m) (sym (take-nil n));
  left = sym (drop-nil n);
}
memcpy_v-Copied (piece ∷ pieces) dst n offset m = elim (dec_lt (length piece - offset) n) [
  | yes h ↦
      let rec =
        memcpy_v-Copied pieces (dst + (length piece - offset)) (n - (length piece - offset)) 0
          (write_bytes dst (drop offset piece) m) in
      let at_length = length-drop offset piece in
      rw (memcpy_v_beyond piece pieces dst n offset m h) (record {
        written =
            rec.written
            ∙ (ap
                  (λ bs.
                    write_bytes (dst + (length piece - offset))
                      (take (n - (length piece - offset)) bs)
                      (write_bytes dst (drop offset piece) m))
                  (left_of-zero pieces)
                ∙ written_beyond (drop offset piece) (concat pieces) dst n (length piece - offset) m
                    at_length h);
        left =
            rec.left
            ∙ (ap (drop (n - (length piece - offset))) (left_of-zero pieces)
                ∙ (ap (λ k. drop (n - k) (concat pieces)) (sym at_length)
                    ∙ sym (drop-append_right n (drop offset piece) (concat pieces) (omega arith))));
      })
  | no h ↦ rw (memcpy_v_within piece pieces dst n offset m (omega arith)) (record {
    written =
        ap (λ bs. write_bytes dst bs m)
          (sym (
            take-append_left n (drop offset piece) (concat pieces)
              (omega (arith, length-drop offset piece))));
    left =
        ap (λ bs. bs ++ concat pieces) (sym (drop-drop n offset piece))
        ∙ sym (
            drop-append_left n (drop offset piece) (concat pieces)
              (omega (arith, length-drop offset piece)));
  })
]

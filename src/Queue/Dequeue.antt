-- ===== src/Queue/Dequeue.antt =====
-- queue.cpp: `dequeue` by one thread alone, against a list of packets.
use functions.Base.{
  ℕ, suc, ◌+◌, ◌/◌, ◌%◌, ◌^◌, ◌≤◌, ◌≡◌, refl, sym, ap, ◌∙◌, Bool, true, false, ltb, ◌==◌,
  if◌then◌else◌, List, [], ◌∷◌, arith, length, some,
}
use functions.Queue.{
  Memory, Queue, header, actual_len, actual_pos, add_u64, len_at, read_bytes, claim, retire,
  dequeue, hand_over, Dequeued, empty, lost, got,
}
use functions.Queue.Ring.{ring_read, ring_read-add, read-ring_read}
use functions.Queue.Packets.{
  IsSize, Fits, encode, extract_lem, actual_len_lem, actual_pos_lem, header_fits,
}
use functions.Queue.Segments.{Holds, length-encode, Segment-used}
use functions.Queue.Enqueue.{Returns, ==_self}

-- What `dequeue` promises: the first packet, in the caller's buffer if it has room for it.
unfoldable pub hand_out : ℕ → Bool → List ℕ → Dequeued
hand_out room has_block b =
    if ltb room (length b) then (if has_block then got true b else lost (length b)) else got false b

unfoldable pub take_out : ℕ → Bool → List (List ℕ) → Dequeued × List (List ℕ)
unfolding hand_out
take_out room has_block [] = (empty, [])
take_out room has_block (b ∷ bs) = (hand_out room has_block b, bs)

-- The header and the bytes behind it, as they were read.
pub header-at :
    (m : Memory) (s p : ℕ) (b : List ℕ)
    → ring_read s p (length (encode b)) m ≡ encode b
    → (ring_read s p 8 m ≡ header (length b)) × (ring_read s (p + 8) (length b) m ≡ b)
unfolding ring_read header
header-at m s p b h =
    let cut =
      sym (ring_read-add s 8 (length b) p m)
      ∙ (ap (λ n. ring_read s p n m) (sym (length-encode b)) ∙ h) in
    (cc, cc)

-- The four bytes of the length, the least first.
len_at-header : (m : Memory) (i n : ℕ) → n ≤ 2 ^ 30 → read_bytes i 8 m ≡ header n → len_at i m ≡ n
unfolding read_bytes header len_at
len_at-header m i n l h =
    let b1 : m (i + 1) ≡ m (suc i) = ap m (omega arith) in
    let b2 : m (i + 2) ≡ m (suc (suc i)) = ap m (omega arith) in
    let b3 : m (i + 3) ≡ m (suc (suc (suc i))) = ap m (omega arith) in
    let d0 : m i ≡ n % 256 = cc in
    let d1 : m (suc i) ≡ n / 256 % 256 = cc in
    let d2 : m (suc (suc i)) ≡ n / 65536 % 256 = cc in
    let d3 : m (suc (suc (suc i))) ≡ n / 16777216 % 256 = cc in omega arith

pub len_at-ring :
    (m : Memory) (s p : ℕ) (b : List ℕ)
    → IsSize s
    → p % 8 ≡ 0
    → length b ≤ 2 ^ 30
    → ring_read s p (length (encode b)) m ≡ encode b
    → len_at (actual_pos p s) m ≡ length b
len_at-ring m s p b v a l h =
    ap (λ i. len_at i m) (actual_pos_lem p s v)
    ∙ len_at-header m (p % s) (length b) l
        (read-ring_read s 8 (p % s) p m refl (header_fits p s v a) ∙ (header-at m s p b h).0)

-- The queue without its first packet.
abbrev advanced : List ℕ → Queue → Queue
advanced b q =
    let end = q.dequeue_pos + actual_len (length b) in
    record q { dequeue_pos = end; pre_dequeue_pos = end }

module _ (q : Queue) (b : List ℕ) (bs : List (List ℕ)) (h : Holds q (b ∷ bs)) where
  abbrev p : ℕ
  p = q.dequeue_pos

  fits : Fits q.size p b
  fits =
      let end = Segment-used q.memory q.size p (b ∷ bs) q.enqueue_pos h.segment in
      record {
        is_size = h.is_size;
        aligned = h.aligned;
        short = h.segment.2;
        in_ring = omega (arith, end, h.within);
        no_wrap = omega (arith, end, h.no_wrap);
      }

  pub advanced-Holds : Holds (advanced b q) bs
  advanced-Holds = record {
    is_size = h.is_size;
    aligned = omega (arith, h.aligned, actual_len_lem (length b) h.segment.2);
    none_enqueues = h.none_enqueues;
    none_dequeues = refl;
    no_wrap = h.no_wrap;
    within = omega (arith, h.within);
    segment = h.segment.3;
  }

  hand_over_lem :
      (room : ℕ) (has_block : Bool)
      → hand_over room has_block p
          (length b)
          (record q { pre_dequeue_pos = p + actual_len (length b) })
        ≡ hand_out room has_block b
  unfolding hand_over hand_out
  hand_over_lem room has_block = rw (
      extract_lem p b (record q { pre_dequeue_pos = p + actual_len (length b) }) fits
      ∙ (header-at q.memory q.size p b h.segment.0).1)

  pub dequeue_lem :
      (room : ℕ) (has_block : Bool)
      → dequeue room has_block q ≡ some (hand_out room has_block b, advanced b q)
  unfolding dequeue claim retire
  dequeue_lem room has_block =
      let end = Segment-used q.memory q.size p (b ∷ bs) q.enqueue_pos h.segment in
      let more : (p == q.enqueue_pos) ≡ false =
        ground (arith, end, actual_len_lem (length b) h.segment.2) in
      let sum : add_u64 p (actual_len (length b)) ≡ p + actual_len (length b) =
        omega (arith, fits.no_wrap) in
      rw (
        h.none_dequeues,
        more,
        len_at-ring q.memory q.size p b h.is_size h.aligned h.segment.2 h.segment.0,
        ==_self p,
        sum,
        hand_over_lem room has_block,
        ==_self p,
      )

pub dequeue-Returns :
    (room : ℕ) (has_block : Bool) (q : Queue) (bs : List (List ℕ))
    → Holds q bs
    → Returns q
        (dequeue room has_block q)
        (take_out room has_block bs).0
        (take_out room has_block bs).1
unfolding dequeue take_out
dequeue-Returns room has_block q [] h =
    let same : (q.pre_dequeue_pos == q.enqueue_pos) ≡ true = ground (arith, h.segment) in
    rw same (q, refl, h, refl, omega arith)
dequeue-Returns room has_block q (b ∷ bs) h =
    (advanced b q, dequeue_lem q b bs h room has_block, advanced-Holds q b bs h, refl, omega arith)

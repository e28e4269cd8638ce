-- ===== src/Queue/Segments.antt =====
-- queue.cpp: a ring that holds packets between two positions.
use functions.Base.{
  ℕ, ◌+◌, ◌%◌, ◌^◌, ◌≤◌, ◌<◌, ◌≡◌, ap, ◌∙◌, leb, if◌then◌else◌, List, [], ◌∷◌, ◌++◌, arith, length,
  length-append, none, some, add_u32,
}
use functions.Queue.{Memory, Queue, header, actual_len, sum_len}
use functions.Queue.Ring.{ring_write, ring_read, ring_read-ring_write_below}
use functions.Queue.Copy.{concat}
use functions.Queue.Packets.{IsSize, encode, actual_len_lem}

-- What the packets take in the ring.
abbrev pub used : List (List ℕ) → ℕ
used [] = 0
used (b ∷ bs) = actual_len (length b) + used bs

-- The ring holds the packets from the position `p` up to `e`.
abbrev pub Segment : Memory → ℕ → ℕ → List (List ℕ) → ℕ → Type 0
Segment m s p [] e = p ≡ e
Segment m s p (b ∷ bs) e =
    (ring_read s p (length (encode b)) m ≡ encode b)
    × (0 < length b)
    × (length b ≤ 2 ^ 30)
    × Segment m s (p + actual_len (length b)) bs e

-- The queue holds the packets, and no call is under way.
pub record Holds (q : Queue) (bs : List (List ℕ)) : Type 0 where
  pub is_size : IsSize q.size
  pub aligned : q.dequeue_pos % 8 ≡ 0
  pub none_enqueues : q.pre_enqueue_pos ≡ q.enqueue_pos
  pub none_dequeues : q.pre_dequeue_pos ≡ q.dequeue_pos
  pub no_wrap : q.enqueue_pos < 2 ^ 64
  pub within : q.enqueue_pos ≤ q.dequeue_pos + q.size
  pub segment : Segment q.memory q.size q.dequeue_pos bs q.enqueue_pos

pub length-encode : (b : List ℕ) → length (encode b) ≡ 8 + length b
unfolding header
length-encode b = omega arith

pub Segment-used :
    (m : Memory) (s p : ℕ) (bs : List (List ℕ)) (e : ℕ) → Segment m s p bs e → e ≡ p + used bs
Segment-used m s p [] e h = omega arith
Segment-used m s p (b ∷ bs) e h =
    omega (arith, Segment-used m s (p + actual_len (length b)) bs e h.3)

pub Segment-aligned :
    (m : Memory) (s p : ℕ) (bs : List (List ℕ)) (e : ℕ) → p % 8 ≡ 0 → Segment m s p bs e → e % 8 ≡ 0
Segment-aligned m s p [] e a h = omega arith
Segment-aligned m s p (b ∷ bs) e a h =
    Segment-aligned m s (p + actual_len (length b)) bs e
      (omega (arith, actual_len_lem (length b) h.2)) h.3

-- Bytes that are written behind the packets, up to a round behind their start, leave them.
pub Segment-write :
    (m : Memory) (s p : ℕ) (bs : List (List ℕ)) (e : ℕ) (bytes : List ℕ)
    → e + length bytes ≤ p + s
    → Segment m s p bs e
    → Segment (ring_write s e bytes m) s p bs e
Segment-write m s p [] e bytes l h = h
Segment-write m s p (b ∷ bs) e bytes l h =
    let n = actual_len_lem (length b) h.2 in
    let end = Segment-used m s p (b ∷ bs) e h in
    (
      ring_read-ring_write_below s (length (encode b)) p e bytes m
            (omega (arith, end, n, length-encode b)) l
          ∙ h.0,
      h.1,
      h.2,
      Segment-write m s (p + actual_len (length b)) bs e bytes (omega arith) h.3,
    )

pub Segment-append :
    (m : Memory) (s p : ℕ) (bs : List (List ℕ)) (e : ℕ) (b : List ℕ)
    → Segment m s p bs e
    → ring_read s e (length (encode b)) m ≡ encode b
    → 0 < length b
    → length b ≤ 2 ^ 30
    → Segment m s p (bs ++ b ∷ []) (e + actual_len (length b))
Segment-append m s p [] e b h r l k =
    (ap (λ i. ring_read s i (length (encode b)) m) h ∙ r, l, k, omega arith)
Segment-append m s p (c ∷ bs) e b h r l k =
    (h.0, h.1, h.2, Segment-append m s (p + actual_len (length c)) bs e b h.3 r l k)

-- The lengths are summed in 32 bits and never wrap.
pub sum_len_lem :
    (acc : ℕ) (pieces : List (List ℕ))
    → acc ≤ 2 ^ 30
    → sum_len acc pieces ≡ (
        if leb (acc + length (concat pieces)) (2 ^ 30)
        then some (acc + length (concat pieces))
        else none)
unfolding sum_len
sum_len_lem acc [] h = ground arith
sum_len_lem acc (piece ∷ pieces) h =
    ground
      (arith, length-append piece (concat pieces), sum_len_lem (add_u32 acc (length piece)) pieces)

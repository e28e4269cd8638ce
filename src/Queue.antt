-- ===== src/Queue.antt =====
-- redis-pool/src/queue.h and queue.cpp: `queue_t`, a ring of bytes that holds packets, each behind a
-- header of 8 bytes. Positions count up in 64 bits; the low bits of a position are its place in the
-- ring. A call is cut at its compare-and-swaps, and `enqueue` and `dequeue` put the pieces together for a
-- thread that no other thread comes between.
pub mod Ring
pub mod Copy
pub mod Wrap
pub mod Packets
pub mod Segments
pub mod Enqueue
pub mod Dequeue
pub mod Start
pub mod Fifo
pub mod History
pub mod Threads
mod Tests
use functions.Base.{
  ℕ, zero, suc, ◌+◌, ◌-◌, ◌*◌, ◌/◌, ◌%◌, ◌^◌, bit_and, Bool, true, false, ◌&&◌, ◌||◌, not, List, [],
  ◌∷◌, ◌++◌, Option, none, some, length, take, drop, ltb, leb, ◌==◌, if◌then◌else◌, u32, add_u32,
  sub_u32,
}
use functions.Base.Int.{ℤ, pos, negsuc}

-- The bytes behind a pointer, by their place.
abbrev pub Memory : Type 0
Memory = ℕ → ℕ

abbrev pub store_byte : ℕ → ℕ → Memory → Memory
store_byte i b m = λ j. if j == i then b else m j

-- `memcpy` into the memory at the place `i`, and out of it.
unfoldable pub write_bytes : ℕ → List ℕ → Memory → Memory
write_bytes i [] m = m
write_bytes i (b ∷ bs) m = write_bytes (suc i) bs (store_byte i b m)

unfoldable pub read_bytes : ℕ → ℕ → Memory → List ℕ
read_bytes i zero m = []
read_bytes i (suc n) m = m i ∷ read_bytes (suc i) n m

-- `header_t`: the length in four bytes, the least first, and four bytes that `= {len}` sets to 0.
unfoldable pub header : ℕ → List ℕ
header len =
    (len % 256)
    ∷ (len / 256 % 256)
    ∷ (len / 65536 % 256)
    ∷ (len / 16777216 % 256)
    ∷ 0
    ∷ 0
    ∷ 0
    ∷ 0
    ∷ []

-- `hdr.len` of the header at the place `i`.
unfoldable pub len_at : ℕ → Memory → ℕ
len_at i m = m i + 256 * m (i + 1) + 65536 * m (i + 2) + 16777216 * m (i + 3)

abbrev pub header_size : ℕ
header_size = 8

-- `uint64_t` arithmetic.
abbrev pub add_u64 : ℕ → ℕ → ℕ
add_u64 a b = (a + b) % 2 ^ 64

abbrev pub sub_u64 : ℕ → ℕ → ℕ
sub_u64 a b = (a + 2 ^ 64 - b) % 2 ^ 64

-- `m_queue` is NULL where `is_allocated` is false. `on_enqueued` says whether there is a handler, and
-- `calls` counts its calls.
pub record Queue : Type 0 where
  pub is_allocated : Bool
  pub memory : Memory
  pub size : ℕ
  pub enqueue_pos : ℕ
  pub pre_enqueue_pos : ℕ
  pub dequeue_pos : ℕ
  pub pre_dequeue_pos : ℕ
  pub on_enqueued : Bool
  pub calls : ℕ

-- The macros.
unfoldable pub actual_pos : ℕ → ℕ → ℕ
actual_pos p size = u32 (bit_and p (sub_u32 size 1))

unfoldable pub round_up : ℕ → ℕ → ℕ
round_up a b = u32 (sub_u32 (add_u32 a b) 1 / b * b)

-- What a packet takes in the ring.
unfoldable pub actual_len : ℕ → ℕ
unfolding round_up
actual_len len = add_u32 (round_up len header_size) header_size

unfoldable pub uninit : Queue → Queue
uninit q = if q.is_allocated then record q { is_allocated = false } else q

-- The loop of `is_power_of_2`, with `rounds` left before `i` reaches 32.
unfoldable pub is_power_from : ℕ → ℕ → ℕ → Bool
is_power_from zero i size = false
is_power_from (suc rounds) i size = size == 2 ^ i || is_power_from rounds (i + 1) size

unfoldable pub is_power_of_2 : ℕ → Bool
unfolding is_power_from
is_power_of_2 size = is_power_from 32 0 size

-- `block` is what `malloc` gives. A failed `malloc` leaves NULL in `m_queue`.
unfoldable pub init : Option Memory → ℕ → Bool → Queue → ℤ × Queue
init block queue_size on_enqueued q =
    if ltb queue_size 1024
      || ltb (1024 * 1024 * 1024 * 3) queue_size
      || not (is_power_of_2 queue_size)
    then (negsuc 0, q)
    else elim block [
      | none ↦ (negsuc 0, record q { is_allocated = false })
      | some m ↦ (
        pos 0,
        record {
          is_allocated = true;
          memory = m;
          size = queue_size;
          enqueue_pos = 0;
          pre_enqueue_pos = 0;
          dequeue_pos = 0;
          pre_dequeue_pos = 0;
          on_enqueued = on_enqueued;
          calls = q.calls;
        },
      )
    ]

-- `len_to_copy` in a piece of `piece_len` bytes.
unfoldable pub len_to_copy : ℕ → ℕ → ℕ → ℕ
len_to_copy piece_len offset len =
    let left = if ltb offset piece_len then piece_len - offset else 0 in
    if ltb len left then len else left

-- `memcpy_v` from the pieces `src_v[*begin]` on, to the place `dst`: the pieces that are left, from the new
-- `*begin` on, and the new `*offset` into the first of them.
unfoldable pub memcpy_v : ℕ → List (List ℕ) → ℕ → ℕ → Memory → Memory × List (List ℕ) × ℕ
memcpy_v dst [] len offset m = (m, [], offset)
memcpy_v dst (piece ∷ src_v) len offset m =
    let n = len_to_copy (length piece) offset len in
    let m' = write_bytes dst (take n (drop offset piece)) m in
    let rest = memcpy_v (dst + n) src_v (len - n) 0 m' in
    if (len - n) == 0 then (m', piece ∷ src_v, (if ltb 0 n then offset + n else offset)) else rest

-- The sum of the lengths; `none` is the return of -2 inside the loop.
abbrev max_len : ℕ
max_len = 1024 * 1024 * 1024

unfoldable pub sum_len : ℕ → List (List ℕ) → Option ℕ
sum_len len [] = some len
sum_len len (piece ∷ data_v) =
    let rest = sum_len (add_u32 len (length piece)) data_v in
    if ltb max_len (length piece)
    then none
    else if ltb max_len (add_u32 len (length piece))
    then none
    else rest

-- The test of the loop, on the two positions that were read. The sum is one of 64 bits.
unfoldable pub has_room : ℕ → ℕ → ℕ → ℕ → Bool
has_room need size enqueue_pos dequeue_pos =
    leb need (sub_u64 size (sub_u64 enqueue_pos dequeue_pos))

-- The compare-and-swap on `m_pre_enqueue_pos`; `none` where another thread was first.
unfoldable pub reserve : ℕ → ℕ → Queue → Option Queue
reserve p need q =
    if q.pre_enqueue_pos == p then some (record q { pre_enqueue_pos = add_u64 p need }) else none

-- "fill memory": the part of the data up to the end of the ring, then the part at its front.
unfoldable pub fill_front : List (List ℕ) → ℕ → ℕ → Memory → Memory
fill_front data_v len offset m = if ltb 0 len then (memcpy_v 0 data_v len offset m).0 else m

unfoldable pub fill_wrapped : ℕ → ℕ → List (List ℕ) → ℕ → Memory → Memory
unfolding fill_front
fill_wrapped size start data_v len m =
    let n = if ltb len (size - start) then len else size - start in
    let copied = memcpy_v start data_v n 0 m in
    if ltb start size
    then fill_front copied.1 (len - n) copied.2 copied.0
    else fill_front data_v len 0 m

unfoldable pub fill : ℕ → List (List ℕ) → ℕ → Queue → Queue
unfolding fill_wrapped actual_pos actual_len header
fill p data_v len q =
    let start = actual_pos p q.size in
    let m = write_bytes start (header len) q.memory in
    record q {
      memory =
          if ltb start (actual_pos (add_u64 p (actual_len len)) q.size)
          then (memcpy_v (start + header_size) data_v len 0 m).0
          else fill_wrapped q.size (start + header_size) data_v len m;
    }

-- The compare-and-swap on `m_enqueue_pos` and what follows it. `none` where an earlier packet is not
-- published yet: the thread tries again.
unfoldable pub publish : ℕ → ℕ → Queue → Option Queue
publish p need q =
    if q.enqueue_pos == p
    then some (record q {
      enqueue_pos = add_u64 p need;
      calls = if q.on_enqueued then q.calls + 1 else q.calls;
    })
    else none

infixl 5 ◌>>=◌
abbrev pub ◌>>=◌ {ℓ κ} : {A : Type ℓ} {B : Type κ} → Option A → (A → Option B) → Option B
none >>= f = none
some a >>= f = f a

-- `enqueue` by one thread alone; `none` if it spins for ever.
pub enqueue_len : List (List ℕ) → ℕ → Queue → Option (ℤ × Queue)
enqueue_len data_v len q =
    let p = q.pre_enqueue_pos in
    let need = actual_len len in
    if has_room need q.size p q.dequeue_pos
    then (reserve p need q >>= λ r. publish p need (fill p data_v len r) >>= λ r'. some (pos 0, r'))
    else some (negsuc 0, q)

unfoldable pub enqueue : List (List ℕ) → Queue → Option (ℤ × Queue)
enqueue data_v q = elim (sum_len 0 data_v) [
  | none ↦ some (negsuc 1, q)
  | some len ↦ if len == 0 then some (negsuc 1, q) else enqueue_len data_v len q
]

-- -1; -2 with the length that was lost; 0 with the bytes and whether they lie in a block of `malloc`.
pub data Dequeued : Type 0 where
  empty : Dequeued
  lost : ℕ → Dequeued
  got : Bool → List ℕ → Dequeued

-- The compare-and-swap on `m_pre_dequeue_pos`, and the one on `m_dequeue_pos`.
unfoldable pub claim : ℕ → ℕ → Queue → Option Queue
claim p need q =
    if q.pre_dequeue_pos == p then some (record q { pre_dequeue_pos = add_u64 p need }) else none

unfoldable pub retire : ℕ → ℕ → Queue → Option Queue
retire p need q =
    if q.dequeue_pos == p then some (record q { dequeue_pos = add_u64 p need }) else none

-- "read memory": the bytes that come to lie at `*ptr`.
unfoldable pub extract_wrapped : ℕ → ℕ → ℕ → Memory → List ℕ
unfolding read_bytes
extract_wrapped size start len m =
    let n = if ltb start size then (if ltb len (size - start) then len else size - start) else 0 in
    read_bytes start n m ++ (if ltb 0 (len - n) then read_bytes 0 (len - n) m else [])

unfoldable pub extract : ℕ → ℕ → Queue → List ℕ
unfolding extract_wrapped actual_pos actual_len
extract p len q =
    let start = actual_pos p q.size in
    if ltb start (actual_pos (add_u64 p (actual_len len)) q.size)
    then read_bytes (start + header_size) len q.memory
    else extract_wrapped q.size (start + header_size) len q.memory

-- `room` is `*len`, and `has_block` says whether `malloc` would give a block.
unfoldable pub hand_over : ℕ → Bool → ℕ → ℕ → Queue → Dequeued
hand_over room has_block p len q =
    if ltb room len
    then (if has_block then got true (extract p len q) else lost len)
    else got false (extract p len q)

unfoldable pub dequeue : ℕ → Bool → Queue → Option (Dequeued × Queue)
dequeue room has_block q =
    let p = q.pre_dequeue_pos in
    if p == q.enqueue_pos
    then some (empty, q)
    else let len = len_at (actual_pos p q.size) q.memory in
      let need = actual_len len in
      claim p need q >>= λ r. retire p need r >>= λ r'. some (hand_over room has_block p len r, r')

-- ===== src/MemoryPool.antt =====
-- redis-pool/src/memory_pool.h and memory_pool.cpp: blocks of 1 KB to 2 GB in 22 buckets, each with a
-- chain of free blocks. The chain's links lie in an element set. The pool's lock is held for the whole
-- of `alloc` and `release`, so the model runs each in one piece.
pub mod Sizes
pub mod Uninit
pub mod Accounts
mod Tests
use functions.Base.{
  ℕ, zero, suc, ◌+◌, ◌-◌, ◌*◌, ◌/◌, ◌%◌, ◌^◌, Bool, true, false, List, [], ◌∷◌, Option, none, some,
  ltb, leb, ◌==◌, ◌||◌, not, if◌then◌else◌, add_u32, sub_u32, mul_u32,
}
use functions.ElementSet.{
  init as init_elements, Element, ElementSet, end_of_element, put_elem, get_elem, content_at,
  set_content,
}

-- `malloc` and `free`: which of the next requests are granted, the next address, and the blocks that
-- are allocated, each with its size.
pub record Heap : Type 0 where
  pub grants : List Bool
  pub next_ptr : ℕ
  pub live : List (ℕ × ℕ)

pub malloc : ℕ → Heap → Option ℕ × Heap
malloc size h = elim h.grants [
  | [] ↦ (none, h)
  | false ∷ g ↦ (none, record h { grants = g })
  | true ∷ g ↦ (
    some h.next_ptr,
    record h { grants = g; next_ptr = h.next_ptr + 1; live = (h.next_ptr, size) ∷ h.live },
  )
]

remove : ℕ → List (ℕ × ℕ) → List (ℕ × ℕ)
remove ptr [] = []
remove ptr ((q, n) ∷ bs) = if ptr == q then bs else (q, n) ∷ remove ptr bs

pub free : ℕ → Heap → Heap
unfolding remove
free ptr h = record h { live = remove ptr h.live }

pub record Bucket : Type 0 where
  pub block_size : ℕ
  pub first_free : ℕ
  pub free_block_count : ℕ
  pub total_block_count : ℕ

pub record PoolElement : Type 0 where
  pub ptr : ℕ
  pub next : ℕ

pub record MemoryPool : Type 0 where
  pub elements : ElementSet PoolElement
  pub buckets : ℕ → Bucket
  pub allocated_size : ℕ

-- `POOL_BUCKET_COUNT` and the sizes of memory_pool.cpp.
abbrev pub pool_bucket_count : ℕ
pool_bucket_count = 22

abbrev pub small_block_size : ℕ
small_block_size = 131072

abbrev pub medium_block_size : ℕ
medium_block_size = 8388608

abbrev pub medium_block_size_delta : ℕ
medium_block_size_delta = 16777216

abbrev pub max_pool_size : ℕ
max_pool_size = 2147483648

abbrev set_bucket : ℕ → Bucket → MemoryPool → MemoryPool
set_bucket i b p = record p { buckets = λ k. if i == k then b else p.buckets k }

-- The end of `init`, once the element set is there. `1 << (10 + i)` is read as a `uint32_t`.
pub init_buckets : MemoryPool → MemoryPool
init_buckets p = record p {
  buckets = λ i. record {
    block_size = 2 ^ (10 + i) % 2 ^ 32;
    first_free = end_of_element;
    free_block_count = 0;
    total_block_count = 0;
  };
  allocated_size = 0;
}

-- `init`; `memory` is what `malloc` returns for the element set.
pub init : ℕ → Option (ℕ → Element PoolElement) → MemoryPool → Bool × MemoryPool
unfolding init_buckets
init max_block_count memory p =
    let r = init_elements max_block_count none memory p.elements in
    let p' : MemoryPool = record p { elements = r.1 } in
    if r.0 then (true, init_buckets p') else (false, p')

-- The loop of `get_fit_size`: `n` buckets are left from `i` on. The bucket that fits, if there is one.
pub get_fit_size : ℕ → ℕ → ℕ → MemoryPool → Option ℕ
get_fit_size size zero i p = none
get_fit_size size (suc n) i p =
    let rest = get_fit_size size n (i + 1) p in
    if leb size (p.buckets i).block_size then some i else rest

pub get_block_count_delta : ℕ → ℕ
get_block_count_delta block_size =
    if leb block_size small_block_size
    then 128
    else if leb block_size medium_block_size
    then medium_block_size_delta / block_size
    else 1

-- How many blocks `recycle_certain` means to free.
recycle_count : ℕ → Bucket → ℕ
recycle_count threshold b =
    if ltb (small_block_size * 2) (mul_u32 b.block_size b.free_block_count)
    then (if ltb medium_block_size b.block_size
        then add_u32 b.free_block_count 1 / 2
        else if ltb (b.total_block_count / 2) b.free_block_count
            || ltb threshold (mul_u32 b.block_size b.free_block_count)
        then b.free_block_count / 2
        else 0)
    else 0

-- The body of the loop of `recycle_certain`: the first free block of the bucket goes back to the heap.
pub drop_block : ℕ → MemoryPool → Heap → MemoryPool × Heap
drop_block i p h =
    let b = p.buckets i in
    let e = content_at p.elements b.first_free in
    (
      record (set_bucket i
          (record b {
            first_free = e.next;
            total_block_count = sub_u32 b.total_block_count 1;
            free_block_count = sub_u32 b.free_block_count 1;
          })
          p) {
            elements = (put_elem b.first_free p.elements).1;
            allocated_size = sub_u32 p.allocated_size b.block_size;
          },
      free e.ptr h,
    )

-- `n` rounds are left.
pub drop_blocks : ℕ → ℕ → MemoryPool → Heap → MemoryPool × Heap
unfolding drop_block
drop_blocks zero i p h = (p, h)
drop_blocks (suc n) i p h =
    let rest = drop_blocks n i in
    if (p.buckets i).first_free == end_of_element
    then (p, h)
    else (let r = drop_block i p h in rest r.0 r.1)

pub recycle_certain : ℕ → ℕ → MemoryPool → Heap → MemoryPool × Heap
unfolding recycle_count
recycle_certain i threshold p h = drop_blocks (recycle_count threshold (p.buckets i)) i p h

-- `for (i = 0; i < POOL_BUCKET_COUNT; ++ i)`: `n` rounds are left.
pub recycle_all : ℕ → ℕ → MemoryPool → Heap → MemoryPool × Heap
recycle_all zero i p h = (p, h)
recycle_all (suc n) i p h =
    let r = recycle_certain i medium_block_size_delta p h in recycle_all n (i + 1) r.0 r.1

-- The slot `elem` gets the block at `ptr` and becomes the first free one of the bucket.
pub push_block : ℕ → ℕ → ℕ → MemoryPool → MemoryPool
push_block i elem ptr p =
    let b = p.buckets i in
    record (set_bucket i
      (record b {
        first_free = elem;
        total_block_count = add_u32 b.total_block_count 1;
        free_block_count = add_u32 b.free_block_count 1;
      })
      p) {
        elements = set_content p.elements elem (record { ptr = ptr; next = b.first_free });
        allocated_size = add_u32 p.allocated_size b.block_size;
      }

-- The loop of `expand_pool`: `n` rounds are left, and `some_added` says that this is not the first.
pub add_blocks : ℕ → Bool → ℕ → MemoryPool → Heap → Bool × MemoryPool × Heap
unfolding push_block
add_blocks zero some_added i p h = (true, p, h)
add_blocks (suc n) some_added i p h =
    let rest = add_blocks n true i in
    let m = malloc (p.buckets i).block_size h in
    elim m.0 [
      | none ↦ (some_added, p, m.1)
      | some ptr ↦
          let g = get_elem p.elements in
          if g.0 == end_of_element
          then (some_added, record p { elements = g.1 }, free ptr m.1)
          else rest (push_block i g.0 ptr (record p { elements = g.1 })) m.1
    ]

-- Whether `delta` more bytes pass the limit, in 32 bits as the code adds them.
abbrev over : ℕ → MemoryPool → Bool
over delta p = ltb max_pool_size (add_u32 p.allocated_size delta)

-- The first part of `expand_pool`: what is free is recycled where the limit would be passed.
pub make_room : ℕ → MemoryPool → Heap → MemoryPool × Heap
make_room delta p h = if over delta p then recycle_all pool_bucket_count 0 p h else (p, h)

-- Whether it returned 0.
pub expand_pool : ℕ → ℕ → MemoryPool → Heap → Bool × MemoryPool × Heap
unfolding make_room
expand_pool block_size i p h =
    let n = get_block_count_delta block_size in
    let r = make_room (mul_u32 block_size n) p h in
    if over (mul_u32 block_size n) r.0 then (false, r.0, r.1) else add_blocks n false i r.0 r.1

pub record Block : Type 0 where
  pub ptr : ℕ
  pub actual_size : ℕ
  pub cookie : ℕ

-- The end of `alloc`: the first free block of the bucket.
pub take_block : ℕ → MemoryPool → Block × MemoryPool
take_block i p =
    let b = p.buckets i in
    let e = content_at p.elements b.first_free in
    (
      record { ptr = e.ptr; actual_size = b.block_size; cookie = b.first_free },
      set_bucket i
          (record b { first_free = e.next; free_block_count = sub_u32 b.free_block_count 1 }) p,
    )

-- The bucket grows if it has no free block.
pub prepare : ℕ → MemoryPool → Heap → Bool × MemoryPool × Heap
prepare i p h =
    if (p.buckets i).first_free == end_of_element
    then expand_pool (p.buckets i).block_size i p h
    else (true, p, h)

-- `alloc` in the bucket that fits.
pub alloc_in : ℕ → MemoryPool → Heap → Option Block × MemoryPool × Heap
unfolding take_block prepare
alloc_in i p h =
    let r = prepare i p h in
    if r.0 then (let t = take_block i r.1 in (some t.0, t.1, r.2)) else (none, r.1, r.2)

pub alloc : ℕ → MemoryPool → Heap → Option Block × MemoryPool × Heap
alloc requested_size p h = elim (get_fit_size requested_size pool_bucket_count 0 p) [
  | none ↦ (none, p, h)
  | some i ↦ alloc_in i p h
]

-- The block goes in front of the bucket's chain.
pub give_back : ℕ → ℕ → MemoryPool → MemoryPool
give_back i cookie p =
    let b = p.buckets i in
    record (set_bucket i
      (record b { first_free = cookie; free_block_count = add_u32 b.free_block_count 1 }) p) {
        elements =
            set_content p.elements cookie
              (record (content_at p.elements cookie) { next = b.first_free });
      }

-- Whether it returned 0.
pub release : ℕ → ℕ → MemoryPool → Heap → Bool × MemoryPool × Heap
unfolding give_back
release actual_size cookie p h = elim (get_fit_size actual_size pool_bucket_count 0 p) [
  | none ↦ (false, p, h)
  | some i ↦
      let r = recycle_certain i (max_pool_size / 2) (give_back i cookie p) h in (true, r.0, r.1)
]

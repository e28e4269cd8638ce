-- ===== src/MemoryPool/Accounts.antt =====
-- memory_pool.cpp: the sizes of the buckets are fixed, and the pool counts the bytes of its blocks.
use mathlib.Core.Path.{subst}
use native.Mathlib.Nat.{pow-le-pow_right}
use functions.Base.{
  ℕ, zero, suc, ◌+◌, ◌-◌, ◌*◌, ◌/◌, ◌%◌, ◌^◌, ◌≤◌, ◌<◌, ◌≡◌, ◌≢◌, refl, sym, ap, ◌∙◌, Bool, true,
  false, arith, Bool-cases, Option-cases, inl, inr, ◌==◌, if◌then◌else◌, add_u32, sub_u32, mul_u32,
}
use functions.ElementSet.{end_of_element, get_elem}
use functions.MemoryPool.{
  Heap, Bucket, MemoryPool, pool_bucket_count, get_block_count_delta, add_blocks, push_block,
  malloc, drop_block, drop_blocks, recycle_certain, recycle_all, make_room, over, expand_pool,
  prepare, take_block, give_back,
}

-- The bytes of the blocks of the first `n` buckets.
abbrev pub bytes_of : ℕ → (ℕ → Bucket) → ℕ
bytes_of zero b = 0
bytes_of (suc n) b = bytes_of n b + (b n).block_size * (b n).total_block_count

-- The bucket `i` holds blocks of `2 ^ (10 + i)` bytes, and `allocated_size` is the sum of the bytes of
-- all blocks, in 32 bits.
pub record IsBalanced (p : MemoryPool) : Type 0 where
  pub sized : (i : ℕ) → i < pool_bucket_count → (p.buckets i).block_size ≡ 2 ^ (10 + i)
  pub counted : p.allocated_size % 2 ^ 32 ≡ bytes_of pool_bucket_count p.buckets % 2 ^ 32

-- Setting one bucket's counter.
bytes_of_outside :
    (n i : ℕ) (b b' : ℕ → Bucket)
    → n ≤ i
    → ((k : ℕ) → k ≢ i → b' k ≡ b k)
    → bytes_of n b' ≡ bytes_of n b
bytes_of_outside zero i b b' h e = refl
bytes_of_outside (suc n) i b b' h e =
    ground (arith, bytes_of_outside n i b b' (omega arith) e, e n (omega arith))

bytes_of_set :
    (n i : ℕ) (b b' : ℕ → Bucket)
    → i < n
    → ((k : ℕ) → k ≢ i → b' k ≡ b k)
    → bytes_of n b' + (b i).block_size * (b i).total_block_count
      ≡ bytes_of n b + (b' i).block_size * (b' i).total_block_count
bytes_of_set zero i b b' h e = absurd (omega arith)
bytes_of_set (suc n) i b b' h e = elim (Bool-cases (i == n)) [
  | inl t ↦
      let same : i ≡ n = ground arith in
      subst
        (λ j.
          bytes_of (suc n) b' + (b j).block_size * (b j).total_block_count
          ≡ bytes_of (suc n) b + (b' j).block_size * (b' j).total_block_count)
        (sym same)
        (omega (arith, bytes_of_outside n n b b' (omega arith) (λ k q. e k (λ r. q (r ∙ same)))))
  | inr f ↦ grind (arith, bytes_of_set n i b b' (ground arith) e, e n (λ q. ground arith))
]

mul_split : (s y q r : ℕ) → y ≡ 2 ^ 32 * q + r → s * y ≡ 2 ^ 32 * (s * q) + s * r
mul_split s y q r e = rw e (grind arith)

mul_mod : (s y : ℕ) → (s * (y % 2 ^ 32)) % 2 ^ 32 ≡ (s * y) % 2 ^ 32
mul_mod s y = omega (arith, mul_split s y (y / 2 ^ 32) (y % 2 ^ 32) (omega arith))

-- One block more, and one block less.
times_more : (s t : ℕ) → (s * add_u32 t 1) % 2 ^ 32 ≡ (s * t + s) % 2 ^ 32
times_more s t = mul_mod s (t + 1) ∙ ap (λ j. j % 2 ^ 32) (grind arith)

less_one : (s t x : ℕ) → x + 1 ≡ t + 2 ^ 32 → s * x + s ≡ s * t + 2 ^ 32 * s
less_one s t x e =
    let left : s * x + s ≡ s * (x + 1) = grind arith in
    let right : s * (t + 2 ^ 32) ≡ s * t + 2 ^ 32 * s = grind arith in
    left ∙ (ap (λ j. s * j) e ∙ right)

times_less : (s t : ℕ) → (s * sub_u32 t 1 + s) % 2 ^ 32 ≡ (s * t) % 2 ^ 32
times_less s t =
    omega (arith, mul_mod s (t + 2 ^ 32 - 1), less_one s t (t + 2 ^ 32 - 1) (omega arith))

pub size_small : (i : ℕ) → i < pool_bucket_count → 2 ^ (10 + i) ≤ 2 ^ 31
size_small i lt = pow-le-pow_right (omega arith) {j = 31} (omega arith)

-- A step that changes one bucket keeps the balance if it moves `allocated_size` with the bucket.
rebalance :
    (p p' : MemoryPool) (i : ℕ) (b : Bucket)
    → i < pool_bucket_count
    → ((k : ℕ) → k ≢ i → p'.buckets k ≡ p.buckets k)
    → p'.buckets i ≡ b
    → b.block_size ≡ (p.buckets i).block_size
    → (p'.allocated_size + (p.buckets i).block_size * (p.buckets i).total_block_count) % 2 ^ 32
      ≡ (p.allocated_size + (p.buckets i).block_size * b.total_block_count) % 2 ^ 32
    → IsBalanced p
    → IsBalanced p'
rebalance p p' i b lt others at size moved v = record {
  sized = λ k h. elim (Bool-cases (k == i)) [
    | inl t ↦
        let e : i ≡ k = ground arith in
        subst (λ j. (p'.buckets j).block_size ≡ 2 ^ (10 + j)) e
          (ap (λ c. c.block_size) at ∙ (size ∙ v.sized i lt))
    | inr f ↦ ap (λ b. b.block_size) (others k (ground arith)) ∙ v.sized k h
  ];
  counted = omega (
    arith,
    bytes_of_set pool_bucket_count i p.buckets p'.buckets lt others,
    same,
    moved,
    v.counted,
  );
}
  where
    same :
        (p'.buckets i).block_size * (p'.buckets i).total_block_count
        ≡ (p.buckets i).block_size * b.total_block_count
    same = ap (λ c. c.block_size * c.total_block_count) at ∙ ap (λ n. n * b.total_block_count) size

same_bucket : (i : ℕ) (b c : Bucket) → (if i == i then b else c) ≡ b
same_bucket i b c = ground arith

other_bucket : (i k : ℕ) (b c : Bucket) → k ≢ i → (if i == k then b else c) ≡ c
other_bucket i k b c ne = ground arith

push_block-IsBalanced :
    (i elem ptr : ℕ) (p : MemoryPool)
    → i < pool_bucket_count
    → IsBalanced p
    → IsBalanced (push_block i elem ptr p)
unfolding push_block
push_block-IsBalanced i elem ptr p lt v =
    rebalance p (push_block i elem ptr p) i _ lt (λ k ne. other_bucket i k _ _ ne)
      (same_bucket i _ _) refl
      (omega (arith, times_more (p.buckets i).block_size (p.buckets i).total_block_count)) v

drop_block-IsBalanced :
    (i : ℕ) (p : MemoryPool) (h : Heap)
    → i < pool_bucket_count
    → IsBalanced p
    → IsBalanced (drop_block i p h).0
unfolding drop_block
drop_block-IsBalanced i p h lt v =
    rebalance p (drop_block i p h).0 i _ lt (λ k ne. other_bucket i k _ _ ne) (same_bucket i _ _)
      refl
      (omega (
        arith,
        v.sized i lt,
        size_small i lt,
        times_less (p.buckets i).block_size (p.buckets i).total_block_count,
      ))
      v

pub take_block-IsBalanced :
    (i : ℕ) (p : MemoryPool) → i < pool_bucket_count → IsBalanced p → IsBalanced (take_block i p).1
unfolding take_block
take_block-IsBalanced i p lt v =
    rebalance p (take_block i p).1 i _ lt (λ k ne. other_bucket i k _ _ ne) (same_bucket i _ _) refl
      refl v

pub give_back-IsBalanced :
    (i cookie : ℕ) (p : MemoryPool)
    → i < pool_bucket_count
    → IsBalanced p
    → IsBalanced (give_back i cookie p)
unfolding give_back
give_back-IsBalanced i cookie p lt v =
    rebalance p (give_back i cookie p) i _ lt (λ k ne. other_bucket i k _ _ ne) (same_bucket i _ _)
      refl refl v

pub drop_blocks-IsBalanced :
    (n i : ℕ) (p : MemoryPool) (h : Heap)
    → i < pool_bucket_count
    → IsBalanced p
    → IsBalanced (drop_blocks n i p h).0
unfolding drop_blocks
drop_blocks-IsBalanced zero i p h lt v = v
drop_blocks-IsBalanced (suc n) i p h lt v =
    elim (Bool-cases ((p.buckets i).first_free == end_of_element)) [
      | inl t ↦ rw t v
      | inr f ↦ rw f (drop_blocks-IsBalanced n i _ _ lt (drop_block-IsBalanced i p h lt v))
    ]

recycle_all-IsBalanced :
    (n i : ℕ) (p : MemoryPool) (h : Heap)
    → i + n ≤ pool_bucket_count
    → IsBalanced p
    → IsBalanced (recycle_all n i p h).0
unfolding recycle_all recycle_certain
recycle_all-IsBalanced zero i p h le v = v
recycle_all-IsBalanced (suc n) i p h le v =
    recycle_all-IsBalanced n (i + 1) _ _ (omega arith)
      (drop_blocks-IsBalanced _ i p h (omega arith) v)

add_blocks-IsBalanced :
    (n : ℕ) (some_added : Bool) (i : ℕ) (p : MemoryPool) (h : Heap)
    → i < pool_bucket_count
    → IsBalanced p
    → IsBalanced (add_blocks n some_added i p h).1
unfolding add_blocks
add_blocks-IsBalanced zero some_added i p h lt v = v
add_blocks-IsBalanced (suc n) some_added i p h lt v =
    elim (Option-cases (malloc (p.buckets i).block_size h).0) [
      | inl e ↦ rw (e, add_blocks) v
      | inr q ↦ elim (Bool-cases ((get_elem p.elements).0 == end_of_element)) [
        | inl t ↦ rw (q.1, t, add_blocks) (moved v)
        | inr f ↦
            rw (q.1, f, add_blocks)
              (add_blocks-IsBalanced n true i _ _ lt (
                push_block-IsBalanced i (get_elem p.elements).0 q.0
                  (record p { elements = (get_elem p.elements).1 }) lt (moved v)))
      ]
    ]
  where
    moved : IsBalanced p → IsBalanced (record p { elements = (get_elem p.elements).1 })
    moved v = record { sized = v.sized; counted = v.counted }

expand_pool-IsBalanced :
    (size i : ℕ) (p : MemoryPool) (h : Heap)
    → i < pool_bucket_count
    → IsBalanced p
    → IsBalanced (expand_pool size i p h).1
unfolding expand_pool make_room
expand_pool-IsBalanced size i p h lt v = elim (Bool-cases (over delta (make_room delta p h).0)) [
  | inl t ↦ rw t roomy
  | inr f ↦ rw f (add_blocks-IsBalanced (get_block_count_delta size) false i _ _ lt roomy)
]
  where
    delta : ℕ
    delta = mul_u32 size (get_block_count_delta size)

    roomy : IsBalanced (make_room delta p h).0
    roomy = elim (Bool-cases (over delta p)) [
      | inl t ↦ rw t (recycle_all-IsBalanced pool_bucket_count 0 p h (omega arith) v)
      | inr f ↦ rw f v
    ]

pub prepare-IsBalanced :
    (i : ℕ) (p : MemoryPool) (h : Heap)
    → i < pool_bucket_count
    → IsBalanced p
    → IsBalanced (prepare i p h).1
unfolding prepare
prepare-IsBalanced i p h lt v = elim (Bool-cases ((p.buckets i).first_free == end_of_element)) [
  | inl t ↦ rw t (expand_pool-IsBalanced (p.buckets i).block_size i p h lt v)
  | inr f ↦ rw f v
]

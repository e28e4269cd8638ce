-- ===== src/MemoryPool/Sizes.antt =====
-- memory_pool.cpp: the block that `alloc` returns fits the request.
use mathlib.Core.Path.{subst}
use native.Mathlib.Omega.{pow_step}
use functions.Base.{
  ℕ, zero, suc, ◌+◌, ◌*◌, ◌/◌, ◌^◌, ◌≤◌, ◌<◌, ◌≡◌, ◌≢◌, ◌↔◌, ◌⊎◌, refl, sym, ap, ◌∙◌, Bool, true,
  false, Option, none, some, arith, Bool-cases, Option-cases, inl, inr, mul_u32, leb, ◌==◌,
}
use functions.ElementSet.{end_of_element, get_elem}
use functions.MemoryPool.Accounts.{
  IsBalanced, size_small, take_block-IsBalanced, give_back-IsBalanced, drop_blocks-IsBalanced,
  prepare-IsBalanced,
}
use functions.MemoryPool.{
  recycle_certain, give_back, max_pool_size, Heap, MemoryPool, Block, pool_bucket_count,
  init_buckets, get_fit_size, get_block_count_delta, add_blocks, push_block, malloc, expand_pool,
  make_room, prepare, over, release, take_block, alloc_in, alloc,
}

-- The bucket that is found is the first that fits.
FirstFit : ℕ → ℕ → ℕ → MemoryPool → Option ℕ → Type 0
FirstFit size n i p none = (k : ℕ) → i ≤ k → k < i + n → (p.buckets k).block_size < size
FirstFit size n i p (some j) =
    (i ≤ j)
    × (j < i + n)
    × (size ≤ (p.buckets j).block_size)
    × ((k : ℕ) → i ≤ k → k < j → (p.buckets k).block_size < size)

below_step :
    (size i m : ℕ) (p : MemoryPool)
    → (p.buckets i).block_size < size
    → ((k : ℕ) → i + 1 ≤ k → k < m → (p.buckets k).block_size < size)
    → (k : ℕ) → i ≤ k
    → k < m
    → (p.buckets k).block_size < size
below_step size i m p h f k a b = elim (Bool-cases (i == k)) [
  | inl t ↦ let e : i ≡ k = ground arith in subst (λ j. (p.buckets j).block_size < size) e h
  | inr q ↦ f k (ground arith) b
]

fit_step :
    (size n i : ℕ) (p : MemoryPool) (o : Option ℕ)
    → (p.buckets i).block_size < size
    → FirstFit size n (i + 1) p o
    → FirstFit size (suc n) i p o
unfolding FirstFit
fit_step size n i p none h f = λ k a b. below_step size i (i + 1 + n) p h f k a (omega arith)
fit_step size n i p (some j) h f =
    (omega (arith, f.0), omega (arith, f.1), f.2, below_step size i j p h f.3)

get_fit_size-FirstFit :
    (size n i : ℕ) (p : MemoryPool) → FirstFit size n i p (get_fit_size size n i p)
unfolding get_fit_size FirstFit
get_fit_size-FirstFit size zero i p = λ k a b. absurd (omega arith)
get_fit_size-FirstFit size (suc n) i p = elim (Bool-cases (leb size (p.buckets i).block_size)) [
  | inl t ↦ rw (t, FirstFit) (omega arith, omega arith, ground arith, λ k a b. absurd (omega arith))
  | inr f ↦ rw f (fit_step size n i p _ (ground arith) (get_fit_size-FirstFit size n (i + 1) p))
]

-- A growth that succeeds leaves the bucket a free block.
abbrev Grown : ℕ → Bool × MemoryPool × Heap → Type 0
Grown i r = r.0 ≡ true → (r.1.buckets i).first_free ≢ end_of_element

push_block_first :
    (i elem ptr : ℕ) (p : MemoryPool) → ((push_block i elem ptr p).buckets i).first_free ≡ elem
unfolding push_block
push_block_first i elem ptr p = ground arith

add_blocks-Grown :
    (n : ℕ) (some_added : Bool) (i : ℕ) (p : MemoryPool) (h : Heap)
    → (some_added ≡ true → (p.buckets i).first_free ≢ end_of_element)
    → (n ≡ 0 → some_added ≡ true)
    → Grown i (add_blocks n some_added i p h)
unfolding add_blocks
add_blocks-Grown zero some_added i p h a b = λ _. a (b refl)
add_blocks-Grown (suc n) some_added i p h a b =
    elim (Option-cases (malloc (p.buckets i).block_size h).0) [
      | inl e ↦ rw (e, add_blocks, Grown) a
      | inr q ↦ elim (Bool-cases ((get_elem p.elements).0 == end_of_element)) [
        | inl t ↦ rw (q.1, t, add_blocks, Grown) a
        | inr f ↦
            rw (q.1, f, add_blocks, Grown)
              (add_blocks-Grown n true i _ _
                (λ _. ground (
                  arith,
                  push_block_first i (get_elem p.elements).0 q.0
                      (record p { elements = (get_elem p.elements).1 }),
                ))
                (λ _. refl))
      ]
    ]

get_block_count_delta-ne-zero : (size : ℕ) → get_block_count_delta size ≢ 0
unfolding get_block_count_delta
get_block_count_delta-ne-zero size = ground arith

expand_pool-Grown : (size i : ℕ) (p : MemoryPool) (h : Heap) → Grown i (expand_pool size i p h)
unfolding expand_pool
expand_pool-Grown size i p h = elim (Bool-cases (over delta (make_room delta p h).0)) [
  | inl t ↦ rw (t, Grown) (λ e. cc)
  | inr f ↦
      rw (f, Grown)
        (add_blocks-Grown (get_block_count_delta size) false i _ _ (λ e. cc)
          (λ e. absurd (get_block_count_delta-ne-zero size e)))
]
  where
    delta : ℕ
    delta = mul_u32 size (get_block_count_delta size)

prepare-Grown : (i : ℕ) (p : MemoryPool) (h : Heap) → Grown i (prepare i p h)
unfolding prepare
prepare-Grown i p h = elim (Bool-cases ((p.buckets i).first_free == end_of_element)) [
  | inl t ↦ rw (t, Grown) (expand_pool-Grown (p.buckets i).block_size i p h)
  | inr f ↦ rw (f, Grown) (λ _. ground arith)
]

-- A block is as large as the request, and no larger class would do: it has 1 KB or less than twice the
-- bytes asked for.
abbrev pub Serves : ℕ → Option Block → Type 0
Serves size none = Unit {0}
Serves size (some b) =
    (size ≤ b.actual_size)
    × (b.actual_size ≤ 2 ^ 31)
    × ((b.actual_size ≡ 1024) ⊎ (b.actual_size < 2 * size))
    × (b.cookie ≢ end_of_element)

double : (j : ℕ) → 2 ^ (10 + suc j) ≡ 2 * 2 ^ (10 + j)
double j = ap (λ n. 2 ^ n) {y = suc (10 + j)} (omega arith) ∙ pow_step 2 (10 + j)

half_size :
    (j size : ℕ) (p : MemoryPool)
    → IsBalanced p
    → j < pool_bucket_count
    → ((k : ℕ) → 0 ≤ k → k < j → (p.buckets k).block_size < size)
    → (2 ^ (10 + j) ≡ 1024) ⊎ (2 ^ (10 + j) < 2 * size)
half_size zero size p v lt below = inl refl
half_size (suc j) size p v lt below =
    inr (omega (arith, below j (omega arith) (omega arith), v.sized j (omega arith), double j))

taken-Serves :
    (size j : ℕ) (p q : MemoryPool)
    → FirstFit size pool_bucket_count 0 p (some j)
    → IsBalanced p
    → IsBalanced q
    → (q.buckets j).first_free ≢ end_of_element
    → Serves size (some (take_block j q).0)
unfolding take_block FirstFit
taken-Serves size j p q f v w ne = (
  omega (arith, f.2, v.sized j (omega (arith, f.1)), w.sized j (omega (arith, f.1))),
  omega (arith, w.sized j (omega (arith, f.1)), size_small j (omega (arith, f.1))),
  subst (λ n. (n ≡ 1024) ⊎ (n < 2 * size)) (sym (w.sized j (omega (arith, f.1))))
      (half_size j size p v (omega (arith, f.1)) f.3),
  ne,
)

abbrev Answers : ℕ → Option Block × MemoryPool × Heap → Type 0
Answers size r = IsBalanced r.1 × Serves size r.0

alloc_in-Answers :
    (size j : ℕ) (p : MemoryPool) (h : Heap)
    → FirstFit size pool_bucket_count 0 p (some j)
    → IsBalanced p
    → Answers size (alloc_in j p h)
unfolding alloc_in FirstFit
alloc_in-Answers size j p h f v = elim (Bool-cases (prepare j p h).0) [
  | inl t ↦
      rw (t, Serves)
        (
          take_block-IsBalanced j _ (omega (arith, f.1)) ready,
          taken-Serves size j p _ f v ready (prepare-Grown j p h t),
        )
  | inr q ↦ rw (q, Serves) (ready, tt)
]
  where
    ready : IsBalanced (prepare j p h).1
    ready = prepare-IsBalanced j p h (omega (arith, f.1)) v

-- `alloc` on a pool whose books are right, whatever `malloc` grants: they stay right, and a block that
-- it returns has at least the bytes asked for and at most 2 GB, has 1 KB or less than twice the bytes
-- asked for, and its cookie is not the end mark.
pub alloc-Answers :
    (size : ℕ) (p : MemoryPool) (h : Heap)
    → IsBalanced p
    → IsBalanced (alloc size p h).1 × Serves size (alloc size p h).0
unfolding alloc
alloc-Answers size p h v = elim (Option-cases (get_fit_size size pool_bucket_count 0 p)) [
  | inl e ↦ rw (e, alloc, Serves) (v, tt)
  | inr q ↦
      rw (q.1, alloc, Serves)
        (alloc_in-Answers size q.0 p h
          (subst (FirstFit size pool_bucket_count 0 p) q.1
            (get_fit_size-FirstFit size pool_bucket_count 0 p))
          v)
]

-- A pool whose books are right has no class for a request exactly if it is larger than 2 GB.
pub get_fit_size-none :
    (size : ℕ) (p : MemoryPool)
    → IsBalanced p
    → (get_fit_size size pool_bucket_count 0 p ≡ none) ↔ (2 ^ 31 < size)
unfolding FirstFit
get_fit_size-none size p v = go _ refl (get_fit_size-FirstFit size pool_bucket_count 0 p)
  where
    go :
        (o : Option ℕ)
        → get_fit_size size pool_bucket_count 0 p ≡ o
        → FirstFit size pool_bucket_count 0 p o
        → (get_fit_size size pool_bucket_count 0 p ≡ none) ↔ (2 ^ 31 < size)
    go none e f =
        (λ _. omega (arith, f 21 (omega arith) (omega arith), v.sized 21 (omega arith)), λ _. e)
    go (some j) e f = (
      λ q. cc,
      λ lt.
          absurd
            (omega (arith, f.2, v.sized j (omega (arith, f.1)), size_small j (omega (arith, f.1)))),
    )

-- `release`, of any block, keeps the books of the pool right.
pub release-IsBalanced :
    (size cookie : ℕ) (p : MemoryPool) (h : Heap)
    → IsBalanced p
    → IsBalanced (release size cookie p h).1
unfolding release recycle_certain FirstFit
release-IsBalanced size cookie p h v =
    go (get_fit_size size pool_bucket_count 0 p) (get_fit_size-FirstFit size pool_bucket_count 0 p)
  where
    bound : (i : ℕ) → FirstFit size pool_bucket_count 0 p (some i) → i < pool_bucket_count
    bound i f = omega (arith, f.1)

    go :
        (o : Option ℕ)
        → FirstFit size pool_bucket_count 0 p o
        → IsBalanced
            (elim o as (λ _. Bool × MemoryPool × Heap) [
              | none ↦ (false, p, h)
              | some i ↦
                  let r = recycle_certain i (max_pool_size / 2) (give_back i cookie p) h in
                  (true, r.0, r.1)
            ]).1
    go none f = v
    go (some i) f =
        drop_blocks-IsBalanced _ i (give_back i cookie p) h (bound i f)
          (give_back-IsBalanced i cookie p (bound i f) v)

-- The books of a pool that `init` has set up are right.
pub init_buckets-IsBalanced : (p : MemoryPool) → IsBalanced (init_buckets p)
unfolding init_buckets
init_buckets-IsBalanced p = record {
  sized = λ i lt. omega (arith, size_small i lt);
  counted = omega arith;
}

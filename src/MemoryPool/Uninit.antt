-- ===== src/MemoryPool/Uninit.antt =====
-- memory_pool.cpp: `uninit`, which frees the blocks of the chains.
use functions.Base.{
  ℕ, zero, suc, ◌+◌, ◌<◌, ◌≡◌, ◌≢◌, refl, sym, ap, ◌∙◌, List, [], ◌∷◌, Option, none, some, arith,
  length, ◌==◌, if◌then◌else◌,
}
use functions.ElementSet
use functions.ElementSet.{end_of_element, content_at}
use functions.MemoryPool.{Heap, free, MemoryPool, pool_bucket_count}

-- The inner loop, from the slot `j` on; `none` where the fuel is out.
pub free_chain : ℕ → ℕ → MemoryPool → Heap → Option Heap
free_chain zero j p h = none
free_chain (suc fuel) j p h =
    let rest = free_chain fuel (content_at p.elements j).next p in
    if j == end_of_element then some h else rest (free (content_at p.elements j).ptr h)

-- `n` buckets are left from `i` on. A chain has no more blocks than the element set has slots.
pub free_buckets : ℕ → ℕ → MemoryPool → Heap → Option Heap
free_buckets zero i p h = some h
free_buckets (suc n) i p h =
    elim (free_chain (p.elements.element_count + 1) (p.buckets i).first_free p h) [
      | none ↦ none
      | some h' ↦ free_buckets n (i + 1) p h'
    ]

pub uninit : MemoryPool → Heap → Option (MemoryPool × Heap)
uninit p h = elim (free_buckets pool_bucket_count 0 p h) [
  | none ↦ none
  | some h' ↦ some (record p { elements = ElementSet.uninit p.elements }, h')
]

-- The slots of a chain, the last of which ends it.
abbrev pub Chain : MemoryPool → ℕ → List ℕ → Type 0
Chain p j [] = j ≡ end_of_element
Chain p j (k ∷ ks) = (j ≡ k) × (k ≢ end_of_element) × Chain p (content_at p.elements k).next ks

-- The blocks of the slots are freed, the first one first.
abbrev pub free_all : MemoryPool → List ℕ → Heap → Heap
free_all p [] h = h
free_all p (k ∷ ks) h = free_all p ks (free (content_at p.elements k).ptr h)

-- A chain that is no longer than the fuel is freed as a whole.
pub free_chain-all :
    (ks : List ℕ) (fuel j : ℕ) (p : MemoryPool) (h : Heap)
    → Chain p j ks
    → length ks < fuel
    → free_chain fuel j p h ≡ some (free_all p ks h)
unfolding free_chain
free_chain-all ks zero j p h c f = absurd (omega arith)
free_chain-all [] (suc fuel) j p h c f = ground (arith, c)
free_chain-all (k ∷ ks) (suc fuel) j p h c f =
    let rest =
      free_chain-all ks fuel (content_at p.elements k).next p (free (content_at p.elements k).ptr h)
        c.2 (omega arith) in
    ground (arith, c.0, c.1, rest)

-- Each of the `n` buckets from `i` on has its chain, of no more slots than there are.
abbrev pub Chains : MemoryPool → ℕ → List (List ℕ) → Type 0
Chains p i [] = Unit
Chains p i (ks ∷ kss) =
    Chain p (p.buckets i).first_free ks
    × (length ks < p.elements.element_count + 1)
    × Chains p (i + 1) kss

abbrev pub free_lists : MemoryPool → List (List ℕ) → Heap → Heap
free_lists p [] h = h
free_lists p (ks ∷ kss) h = free_lists p kss (free_all p ks h)

pub free_buckets-all :
    (kss : List (List ℕ)) (i : ℕ) (p : MemoryPool) (h : Heap)
    → Chains p i kss
    → free_buckets (length kss) i p h ≡ some (free_lists p kss h)
unfolding free_buckets
free_buckets-all [] i p h c = refl
free_buckets-all (ks ∷ kss) i p h c =
    rw
      (
        free_buckets,
        free_chain-all ks (p.elements.element_count + 1) (p.buckets i).first_free p h c.0 c.1,
      )
      (free_buckets-all kss (i + 1) p (free_all p ks h) c.2)

-- Where each bucket's chain has no more slots than there are, `uninit` ends, with the blocks of all
-- chains freed and the array gone.
pub uninit-all :
    (kss : List (List ℕ)) (p : MemoryPool) (h : Heap)
    → length kss ≡ pool_bucket_count
    → Chains p 0 kss
    → uninit p h ≡ some (record p { elements = ElementSet.uninit p.elements }, free_lists p kss h)
unfolding uninit
uninit-all kss p h n c =
    let all : free_buckets pool_bucket_count 0 p h ≡ some (free_lists p kss h) =
      ap (λ k. free_buckets k 0 p h) (sym n) ∙ free_buckets-all kss 0 p h c in
    rw (all, uninit)

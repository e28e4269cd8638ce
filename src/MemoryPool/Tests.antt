-- ===== src/MemoryPool/Tests.antt =====
-- Tests and witnesses for memory_pool.cpp.
use functions.Base.{◌^◌, ◌<◌, ◌≡◌, ◌↔◌, true, [], ◌∷◌, none, ◌==◌, if◌then◌else◌}
use functions.ElementSet.{end_of_element}
use functions.MemoryPool.{
  Heap, MemoryPool, pool_bucket_count, init_buckets, get_fit_size, alloc, release,
}
use functions.MemoryPool.Accounts.{IsBalanced}
use functions.MemoryPool.Sizes.{
  Serves, alloc-Answers, get_fit_size-none, release-IsBalanced, init_buckets-IsBalanced,
}

-- Two slots and no blocks yet.
abbrev bare : MemoryPool
bare = record {
  elements = record {
    ready = true;
    elements = λ i. record {
      content = record { ptr = 0; next = 0 };
      prev = 0;
      next = if i == 0 then 1 else end_of_element;
      free = true;
    };
    element_count = 2;
    first_free = 0;
    last_free = 1;
    first_used = end_of_element;
  };
  buckets =
      λ i. record { block_size = 0; first_free = 0; free_block_count = 0; total_block_count = 0 };
  allocated_size = 9;
}

-- `malloc` grants two requests.
abbrev some_heap : Heap
some_heap = record { grants = true ∷ true ∷ []; next_ptr = 4096; live = [] }

-- The pool behind `init`.
fresh-IsBalanced : IsBalanced (init_buckets bare)
fresh-IsBalanced = init_buckets-IsBalanced bare

alloc-Answers_example :
    IsBalanced (alloc 3000 (init_buckets bare) some_heap).1
    × Serves 3000 (alloc 3000 (init_buckets bare) some_heap).0
alloc-Answers_example = alloc-Answers 3000 (init_buckets bare) some_heap fresh-IsBalanced

get_fit_size-none_example :
    (get_fit_size 3000 pool_bucket_count 0 (init_buckets bare) ≡ none) ↔ (2 ^ 31 < 3000)
get_fit_size-none_example = get_fit_size-none 3000 (init_buckets bare) fresh-IsBalanced

release-IsBalanced_example : IsBalanced (release 4096 1 (init_buckets bare) some_heap).1
release-IsBalanced_example =
    release-IsBalanced 4096 1 (init_buckets bare) some_heap fresh-IsBalanced

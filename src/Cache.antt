-- ===== src/Cache.antt =====
-- redis-pool/src/cache.h and cache.cpp: `cache_t`, a growing buffer of bytes in a block of the memory
-- pool. The pool is an interface, which memory_pool.cpp implements; blocks are lists of bytes.
pub mod Contents
pub mod Dropped
pub mod Sixteen
mod Tests
use functions.Base.{
  ℕ, ◌+◌, ◌-◌, ◌%◌, ◌^◌, Bool, true, false, List, [], ◌∷◌, ◌++◌, Option, none, some, length, take,
  drop, ltb, leb, ◌==◌, if◌then◌else◌, add_u32, sub_u32, uint_max, ◌≤◌, ◌≡◌,
}

-- `alloc` returns the block's size and its cookie, and the bytes that lie in the block.
pub record Block : Type 0 where
  pub actual_size : ℕ
  pub cookie : ℕ
  pub memory : List ℕ

pub record Pool : Type 1 where
  pub State : Type 0
  pub alloc : ℕ → State → Option Block × State
  -- `release(actual_size, cookie)`
  pub release : ℕ → ℕ → State → State

-- What the cache relies on: a block is as large as it was asked for, and has at most `2 ^ 31` bytes, all
-- of them there.
pub record GivesRoom (p : Pool) : Type 0 where
  pub room :
      (n : ℕ) (m : p.State) (b : Block)
      → (p.alloc n m).0 ≡ some b
      → (n ≤ b.actual_size) × (b.actual_size ≤ 2 ^ 31) × (b.actual_size ≤ length b.memory)

-- `ptr` with the block behind it is `memory`.
pub record Cache : Type 0 where
  pub memory : List ℕ
  pub offset : ℕ
  pub total_len : ℕ
  pub data_len : ℕ
  pub cookie : ℕ

-- `memcpy` of `src` to the place `i` of a block.
abbrev pub write_at : List ℕ → ℕ → List ℕ → List ℕ
write_at mem i src = take i mem ++ (src ++ drop (length src) (drop i mem))

-- `len` bytes of a block from the place `i` on.
abbrev pub read_at : List ℕ → ℕ → ℕ → List ℕ
read_at mem i len = take len (drop i mem)

-- The constructor. `ptr` and `cookie` are not set.
pub new_cache : List ℕ → ℕ → Cache
new_cache memory cookie = record {
  memory = memory;
  offset = 0;
  total_len = 0;
  data_len = 0;
  cookie = cookie;
}

-- `data()` up to `len()`: the bytes that the cache holds.
unfoldable pub contents : Cache → List ℕ
contents c = read_at c.memory c.offset c.data_len

-- The two ways in which `append` stores the new bytes: behind the data where they lie, or behind the
-- data moved to the front of the block.
store_behind : List ℕ → Cache → Cache
store_behind bytes c = record c {
  memory = write_at c.memory (c.offset + c.data_len) bytes;
  data_len = add_u32 c.data_len (length bytes);
}

store_moved : List ℕ → Cache → Cache
store_moved bytes c = record c {
  memory = write_at (write_at c.memory 0 (read_at c.memory c.offset c.data_len)) c.data_len bytes;
  offset = 0;
  data_len = add_u32 c.data_len (length bytes);
}

-- The end of `append`, in a block that has room.
store : List ℕ → Cache → Cache
unfolding store_behind store_moved
store bytes c =
    if leb (add_u32 (add_u32 c.offset c.data_len) (length bytes)) c.total_len
    then store_behind bytes c
    else store_moved bytes c

module _ (p : Pool) where
  open p use {State, alloc, release}

  pub skip : ℕ → Cache → State → Cache × State
  skip len c m =
      if c.total_len == 0
      then (c, m)
      else if leb c.data_len len
      then (record c { offset = 0; total_len = 0; data_len = 0 }, release c.total_len c.cookie m)
      else (record c { offset = add_u32 c.offset len; data_len = sub_u32 c.data_len len }, m)

  -- The move to a new block: `memcpy` of the data, if there are any, and release of the old block.
  move_to : Block → Cache → State → Cache × State
  move_to b c m = (
    record c {
      memory =
          if c.total_len == 0
          then b.memory
          else if c.data_len == 0
          then b.memory
          else write_at b.memory 0 (read_at c.memory c.offset c.data_len);
      offset = 0;
      total_len = b.actual_size;
      cookie = b.cookie;
    },
    if c.total_len == 0 then m else release c.total_len c.cookie m,
  )

  -- Whether the bytes were appended.
  pub append : List ℕ → Cache → State → Bool × Cache × State
  append bytes c m =
      if ltb (sub_u32 uint_max (length bytes)) c.data_len
      then (false, c, m)
      else if ltb c.total_len (add_u32 c.data_len (length bytes))
      then (let r = alloc (add_u32 c.data_len (length bytes)) m in
          elim r.0 [
            | none ↦ (false, c, r.1)
            | some b ↦ let q = move_to b c r.1 in (true, store bytes q.0, q.1)
          ])
      else (true, store bytes c, m)

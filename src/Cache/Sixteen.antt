-- ===== src/Cache/Sixteen.antt =====
-- A memory pool for the tests of the code that stands on one: its blocks have 16 bytes.
use functions.Base.{ℕ, ◌+◌, ◌-◌, List, [], ◌∷◌, none, some, leb, if◌then◌else◌, arith}
use functions.Cache.{Pool, Block, GivesRoom}

abbrev sixteen : List ℕ
sixteen = 0 ∷ 0 ∷ 0 ∷ 0 ∷ 0 ∷ 0 ∷ 0 ∷ 0 ∷ 0 ∷ 0 ∷ 0 ∷ 0 ∷ 0 ∷ 0 ∷ 0 ∷ 0 ∷ []

abbrev block : Block
block = record { actual_size = 16; cookie = 5; memory = sixteen }

-- The state counts the blocks that are out.
abbrev pub small_pool : Pool
small_pool = record {
  State = ℕ;
  alloc = λ n m. (if leb n 16 then some block else none, if leb n 16 then m + 1 else m);
  release = λ size cookie m. m - 1;
}

pub small_pool-GivesRoom : GivesRoom small_pool
small_pool-GivesRoom = record { room = λ n m b e. ground arith }

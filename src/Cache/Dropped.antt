-- ===== src/Cache/Dropped.antt =====
-- cache.cpp: what is left when all data are skipped.
use functions.Base.{◌≡◌, refl, ◌⊎◌, inl, inr, true, leb, ◌==◌, Bool-cases, arith}
use functions.Cache.{Cache, Pool, skip}

-- The cache has no data, or not even a block.
abbrev pub Dropped : Cache → Type 0
Dropped c = (c.data_len ≡ 0) ⊎ (c.total_len ≡ 0)

pub skip-Dropped : (p : Pool) (c : Cache) (m : p.State) → Dropped (skip p c.data_len c m).0
unfolding skip
skip-Dropped p c m = elim (Bool-cases (c.total_len == 0)) [
  | inl t ↦ rw t (inr (ground arith))
  | inr f ↦ let all : leb c.data_len c.data_len ≡ true = ground arith in rw (f, all) (inl refl)
]

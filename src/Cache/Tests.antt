-- ===== src/Cache/Tests.antt =====
-- Tests and witnesses for cache.cpp.
use functions.Base.{◌≡◌, [], ◌∷◌, drop, arith}
use functions.Cache.{Cache, contents, skip, append}
use functions.Cache.Contents.{IsValid, Result, append-Result, skip-contents}
use functions.Cache.Sixteen.{small_pool, small_pool-GivesRoom}

-- The bytes 7 and 8 in a block of four.
abbrev holding_two : Cache
holding_two = record {
  memory = 0 ∷ 7 ∷ 8 ∷ 0 ∷ [];
  offset = 1;
  total_len = 4;
  data_len = 2;
  cookie = 3;
}

holding_two-IsValid : IsValid holding_two
holding_two-IsValid = record {
  small = omega arith;
  room = omega arith;
  inside = omega arith;
  at_start = λ e. ground arith;
}

-- Three more bytes need a new block.
append-Result_example :
    let r = append small_pool (1 ∷ 2 ∷ 3 ∷ []) holding_two 1 in
    Result (1 ∷ 2 ∷ 3 ∷ []) holding_two r.0 r.1
append-Result_example =
    append-Result small_pool small_pool-GivesRoom (1 ∷ 2 ∷ 3 ∷ []) holding_two 1 holding_two-IsValid
      (omega arith)

skip-contents_example :
    (contents (skip small_pool 1 holding_two 1).0 ≡ drop 1 (contents holding_two))
    × IsValid (skip small_pool 1 holding_two 1).0
skip-contents_example = skip-contents small_pool 1 holding_two 1 holding_two-IsValid (omega arith)

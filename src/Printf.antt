-- ===== src/Printf.antt =====
-- What `snprintf` writes for the formats of redis-pool/src: bytes, with `%s` and `%d` put in.
-- The numbers that the code prints are not negative.
use functions.Base.{ℕ, zero, suc, ◌+◌, ◌-◌, ◌/◌, ◌%◌, List, [], ◌∷◌, take, ltb, if◌then◌else◌}
use Prim.Native.String.{String}
use Prim.Native.Char.{code}

-- The bytes of an ASCII literal.
abbrev pub bytes : String → List ℕ
bytes String.[] = []
bytes (String.◌∷◌ c s) = code c ∷ bytes s

-- The decimal digits of `n`, ahead of `out`; `n + 1` rounds are enough.
unfoldable pub decimal_from : ℕ → ℕ → List ℕ → List ℕ
decimal_from zero n out = out
decimal_from (suc rounds) n out =
    let digit : List ℕ = (48 + n % 10) ∷ out in
    let rest = decimal_from rounds (n / 10) digit in if ltb n 10 then digit else rest

-- `%d`
unfoldable pub decimal : ℕ → List ℕ
unfolding decimal_from
decimal n = decimal_from (n + 1) n []

-- `snprintf(buf, size, …)` keeps `size - 1` bytes and ends them with a zero, which is not kept here.
abbrev pub snprintf : ℕ → List ℕ → List ℕ
snprintf size text = take (size - 1) text

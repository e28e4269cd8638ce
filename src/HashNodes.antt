-- ===== src/HashNodes.antt =====
-- redis-pool/src/HashNodes.h: the consistent-hash ring that places keys on redis nodes.
-- Keys are lists of bytes. A node is any value; the source keeps a `void*`.
pub mod Order
pub mod Owner
pub mod Moves
pub mod Inside
mod Tests
use functions.Base.{
  ℕ, zero, suc, ◌+◌, ◌*◌, ◌/◌, ◌%◌, ◌^◌, bit_xor, List, [], ◌∷◌, Option, none, some, length, take,
  drop, ltb, ◌==◌, if◌then◌else◌,
}

-- The seed and the multiplier of `hash`.
abbrev seed : ℕ
seed = 0x1234ABCD

abbrev mult : ℕ
mult = 0xc6a4a7935bd1e995

-- Products of `unsigned long long`.
abbrev mul_u64 : ℕ → ℕ → ℕ
mul_u64 a b = (a * b) % 2 ^ 64

-- `h ^= h >> r` with `r = 47`.
abbrev xor_shift : ℕ → ℕ
xor_shift h = bit_xor h (h / 2 ^ 47)

-- `union Data2Long`: the eight bytes of `sz` read as `l`, the low byte first. The missing bytes of a
-- last, shorter piece are the zeros that the code stores there.
data_to_long : List ℕ → ℕ
data_to_long [] = 0
data_to_long (b ∷ bs) = b + 256 * data_to_long bs

-- The body of the loop over whole pieces of eight bytes.
mix_block : ℕ → List ℕ → ℕ
mix_block h piece =
    let k : ℕ = mul_u64 (data_to_long piece) mult in
    mul_u64 (bit_xor h (mul_u64 (xor_shift k) mult)) mult

-- `for (n = 0; n + 8 <= size; n += 8)`: as many rounds as there are whole pieces.
mix_blocks : ℕ → List ℕ → ℕ → ℕ
mix_blocks zero key h = h
mix_blocks (suc rounds) key h = mix_blocks rounds (drop 8 key) (mix_block h (take 8 key))

-- `if (n < size)`: the rest of the key.
mix_tail : List ℕ → ℕ → ℕ
mix_tail [] h = h
mix_tail (b ∷ bs) h = mul_u64 (bit_xor h (data_to_long (b ∷ bs))) mult

pub hash : List ℕ → ℕ
unfolding data_to_long mix_block mix_blocks mix_tail
hash key =
    let rounds : ℕ = length key / 8 in
    let h0 : ℕ = bit_xor seed (mul_u64 (length key) mult) in
    let h1 : ℕ = mix_tail (drop (8 * rounds) key) (mix_blocks rounds key h0) in
    xor_shift (mul_u64 (xor_shift h1) mult) % 2 ^ 32

-- `std::map<unsigned int, void*>`: the entries in the order of their keys.
abbrev pub NodeMap {ℓ} : Type ℓ → Type ℓ
NodeMap V = List (ℕ × V)

module _ {ℓ} {V : Type ℓ} where
  -- `m_map.insert`: an entry that is there stays.
  insert : ℕ → V → NodeMap V → NodeMap V
  insert l node [] = (l, node) ∷ []
  insert l node ((k, v) ∷ m) =
      if ltb l k
      then (l, node) ∷ (k, v) ∷ m
      else if l == k
      then (k, v) ∷ m
      else (k, v) ∷ insert l node m

  -- `m_map.find`
  find : ℕ → NodeMap V → Option V
  find l [] = none
  find l ((k, v) ∷ m) = if l == k then some v else find l m

  -- `m_map.upper_bound`: the first entry with a greater key.
  upper_bound : ℕ → NodeMap V → Option V
  upper_bound l [] = none
  upper_bound l ((k, v) ∷ m) = if ltb l k then some v else upper_bound l m

  -- `m_map.begin`; `none` is the end, which may not be read.
  first : NodeMap V → Option V
  first [] = none
  first ((k, v) ∷ m) = some v

  abbrev or_else : Option V → Option V → Option V
  or_else (some v) o = some v
  or_else none o = o

  -- The node for a hash value: `getNode` behind `hash`. `none` stands for the read of
  -- `end()->second`, which is undefined.
  locate : ℕ → NodeMap V → Option V
  locate l m = or_else (find l m) (or_else (upper_bound l m) (first m))

  pub put_node : List ℕ → V → NodeMap V → NodeMap V
  put_node key node m = insert (hash key) node m

  pub get_node : List ℕ → NodeMap V → Option V
  get_node key m = locate (hash key) m

  -- `size()`
  size : NodeMap V → ℕ
  size m = length m

  -- `clear()`
  clear : NodeMap V → NodeMap V
  clear m = []

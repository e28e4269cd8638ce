-- ===== src/HashNodes/Order.antt =====
-- HashNodes.h: the order of the ring's entries, and what putting a node does to it.
use functions.Base.{ℕ, suc, ◌^◌, ◌≤◌, ◌<◌, List, [], ◌∷◌, arith}
use functions.HashNodes.{NodeMap, hash, insert, put_node}

-- The keys rise strictly from `lo`, and are values of an `unsigned int`.
abbrev pub Above {ℓ} : {V : Type ℓ} → ℕ → NodeMap V → Type 0
Above lo [] = Unit
Above lo ((k, v) ∷ m) = (lo ≤ k) × (k < 2 ^ 32) × Above (suc k) m

abbrev pub IsRing {ℓ} : {V : Type ℓ} → NodeMap V → Type 0
IsRing m = Above 0 m

pub hash-lt : (key : List ℕ) → hash key < 2 ^ 32
unfolding hash
hash-lt key = omega arith

module _ {ℓ} {V : Type ℓ} where
  insert-Above :
      (lo l : ℕ) (node : V) (m : NodeMap V)
      → lo ≤ l
      → l < 2 ^ 32
      → Above lo m
      → Above lo (insert l node m)
  unfolding insert
  insert-Above lo l node [] h b a = (h, b, tt)
  insert-Above lo l node ((k, v) ∷ m) h b a = ground (arith, insert-Above (suc k) l node m)

  -- Putting a node keeps the ring: its keys stay distinct, sorted and within 32 bits.
  pub put_node-IsRing :
      (key : List ℕ) (node : V) (m : NodeMap V) → IsRing m → IsRing (put_node key node m)
  unfolding put_node
  put_node-IsRing key node m r = insert-Above 0 (hash key) node m (omega arith) (hash-lt key) r

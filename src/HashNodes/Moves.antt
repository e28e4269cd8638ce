-- ===== src/HashNodes/Moves.antt =====
-- HashNodes.h: which keys move when a node is put.
use functions.Base.{ℕ, ◌≡◌, ◌⊎◌, List, [], ◌∷◌, Option, some, arith}
use functions.HashNodes.{
  NodeMap, hash, insert, find, upper_bound, first, locate, put_node, get_node,
}

module _ {ℓ} {V : Type ℓ} where
  -- A lookup after an insertion gives what it gave before, or the new node.
  abbrev Moved : V → Option V → Option V → Type ℓ
  Moved node before after = (after ≡ before) ⊎ (after ≡ some node)

  find-insert :
      (j l : ℕ) (node : V) (m : NodeMap V) → Moved node (find j m) (find j (insert l node m))
  unfolding find insert
  find-insert j l node [] = ground arith
  find-insert j l node ((k, v) ∷ m) = ground (arith, find-insert j l node m)

  upper_bound-insert :
      (j l : ℕ) (node : V) (m : NodeMap V)
      → Moved node (upper_bound j m) (upper_bound j (insert l node m))
  unfolding upper_bound insert
  upper_bound-insert j l node [] = ground arith
  upper_bound-insert j l node ((k, v) ∷ m) = ground (arith, upper_bound-insert j l node m)

  first-insert : (l : ℕ) (node : V) (m : NodeMap V) → Moved node (first m) (first (insert l node m))
  unfolding first insert
  first-insert l node [] = ground arith
  first-insert l node ((k, v) ∷ m) = ground arith

  locate-insert :
      (j l : ℕ) (node : V) (m : NodeMap V) → Moved node (locate j m) (locate j (insert l node m))
  unfolding locate
  locate-insert j l node m =
      ground (arith, find-insert j l node m, upper_bound-insert j l node m, first-insert l node m)

  -- Putting a node moves a key to that node or leaves the key where it was.
  pub get_node-put_node :
      (key1 key2 : List ℕ) (node : V) (m : NodeMap V)
      → let after = get_node key1 (put_node key2 node m) in
        (after ≡ get_node key1 m) ⊎ (after ≡ some node)
  unfolding get_node put_node
  get_node-put_node key1 key2 node m = locate-insert (hash key1) (hash key2) node m

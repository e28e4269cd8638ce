-- ===== src/HashNodes/Tests.antt =====
-- Tests and witnesses for HashNodes.h.
use functions.Base.{ℕ, [], ◌∷◌, none, some, ◌≡◌, ◌↔◌, ◌⊎◌, refl, arith}
use functions.Printf.{bytes}
use functions.HashNodes.{NodeMap, hash, insert, find, upper_bound, locate, put_node, get_node}
use functions.HashNodes.Order.{IsRing}
use functions.HashNodes.Owner.{Owner, get_node-Owner, get_node-none}
use functions.HashNodes.Moves.{get_node-put_node}

-- The values that the C++ function returns for these keys.
hash_nothing : hash [] ≡ 2858580747
unfolding hash
hash_nothing = refl

hash_a : hash (bytes "a") ≡ 303555325
unfolding hash
hash_a = refl

hash_digits : hash (bytes "12345678") ≡ 1698629639
unfolding hash
hash_digits = refl

hash_vnode : hash (bytes "REDIS:1.2.3.4:6379:0-VNODE:0") ≡ 1744728914
unfolding hash
hash_vnode = refl

-- Node 1 at 2858580747 and node 2 at 303555325.
abbrev two_nodes : NodeMap ℕ
two_nodes = (303555325, 2) ∷ (2858580747, 1) ∷ []

put_node_twice : put_node [] 1 (put_node (bytes "a") 2 []) ≡ two_nodes
unfolding put_node insert hash
put_node_twice = refl

get_node_below : get_node (bytes "12345678") two_nodes ≡ some 1
unfolding get_node locate find upper_bound hash
get_node_below = refl

two_nodes-IsRing : IsRing two_nodes
two_nodes-IsRing = ground arith

get_node-Owner_example : Owner (hash (bytes "12345678")) two_nodes 1
get_node-Owner_example = get_node-Owner (bytes "12345678") two_nodes two_nodes-IsRing get_node_below

get_node-none_example : (get_node (bytes "a") two_nodes ≡ none) ↔ (two_nodes ≡ [])
get_node-none_example = get_node-none (bytes "a") two_nodes

get_node-put_node_example :
    let after = get_node (bytes "a") (put_node (bytes "12345678") 3 two_nodes) in
    (after ≡ get_node (bytes "a") two_nodes) ⊎ (after ≡ some 3)
get_node-put_node_example = get_node-put_node (bytes "a") (bytes "12345678") 3 two_nodes

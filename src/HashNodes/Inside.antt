-- ===== src/HashNodes/Inside.antt =====
-- HashNodes.h: nodes that are places of a list of a given length.
use functions.Base.{ℕ, ◌≤◌, ◌<◌, ◌≡◌, ◌≢◌, List, [], ◌∷◌, some, arith}
use functions.HashNodes.{NodeMap, hash, insert, put_node, get_node}
use functions.HashNodes.Order.{IsRing}
use functions.HashNodes.Owner.{Entry, here, there, owner, get_node-Owner}

abbrev pub Inside : ℕ → NodeMap ℕ → Type 0
Inside n [] = Unit {0}
Inside n ((k, i) ∷ m) = (i < n) × Inside n m

pub Inside-mono : {a b : ℕ} (m : NodeMap ℕ) → a ≤ b → Inside a m → Inside b m
Inside-mono [] h i = tt
Inside-mono (e ∷ m) h i = (omega arith, Inside-mono m h i.1)

Entry-Inside : {k i n : ℕ} {m : NodeMap ℕ} → Entry k i m → Inside n m → i < n
Entry-Inside (here e f) h = omega arith
Entry-Inside (there t) h = Entry-Inside t h.1

insert-Inside : (l i n : ℕ) (m : NodeMap ℕ) → i < n → Inside n m → Inside n (insert l i m)
unfolding insert
insert-Inside l i n [] h a = (h, tt)
insert-Inside l i n ((k, j) ∷ m) h a = ground (arith, insert-Inside l i n m)

pub put_node-Inside :
    (key : List ℕ) (i n : ℕ) (m : NodeMap ℕ) → i < n → Inside n m → Inside n (put_node key i m)
unfolding put_node
put_node-Inside key i n m h a = insert-Inside (hash key) i n m h a

pub put_node-ne-nil : (key : List ℕ) (i : ℕ) (m : NodeMap ℕ) → put_node key i m ≢ []
unfolding put_node insert
put_node-ne-nil key i [] = λ e. cc
put_node-ne-nil key i ((k, j) ∷ m) = ground arith

pub get_node-lt :
    (key : List ℕ) (n : ℕ) (m : NodeMap ℕ) {i : ℕ}
    → IsRing m
    → Inside n m
    → get_node key m ≡ some i
    → i < n
get_node-lt key n m r a e = elim (get_node-Owner key m r e) [ owner k t _ ↦ Entry-Inside t a ]

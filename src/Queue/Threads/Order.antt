-- ===== src/Queue/Threads/Order.antt =====
-- queue.cpp: what the threads together get out of the queue.
use functions.Base.{ℕ, ◌+◌, ◌<◌, ◌≡◌, inl, inr, ap, List, [], ◌∷◌, ◌++◌, some, arith, length}
use mathlib.Core.Path.{subst}
use functions.Queue.{Queue, actual_len}
use functions.Queue.Segments.{used}
use functions.Queue.History.{At, At-bounds}
use functions.Queue.Threads.{copied, System, Reach}
use functions.Queue.Threads.Defs.{owns, Local}
use functions.Queue.Threads.Invariant.{IsFresh, Reach-Inv}

-- In every state that any number of threads reach, the packets that were claimed are the first of those
-- that were put in, in the order of the compare-and-swaps: none is lost, doubled, torn or overtaken.
pub received-prefix :
    {q : Queue} {s : System}
    → IsFresh q
    → Reach q s
    → (rest : List (List ℕ)) × (s.shared.sent ≡ s.shared.received ++ rest)
received-prefix f r = let g = (Reach-Inv f r).shared in (g.rest, g.split)

-- The claimed packets are the first of the history.
At-received :
    (xs ys : List (List ℕ)) (base p : ℕ) (b : List ℕ)
    → At (xs ++ ys) base p b
    → p < base + used xs
    → At xs base p b
At-received [] ys base p b a h = absurd (omega (arith, At-bounds ys base p b a))
At-received (x ∷ xs) ys base p b (inl a) h = inl a
At-received (x ∷ xs) ys base p b (inr a) h =
    inr (At-received xs ys (base + actual_len (length x)) p b a (omega arith))

-- A thread that has copied a packet out of the ring has it whole, and no other thread has it too.
pub copied-received :
    {q : Queue} {s : System}
    → IsFresh q
    → Reach q s
    → (i p len : ℕ) (b : List ℕ) → s.pc i ≡ copied p len b
    → At s.shared.received 0 p b × (len ≡ length b) × ((j : ℕ) → owns (s.pc j) ≡ some p → i ≡ j)
copied-received {s} f r i p len b e =
    let inv = Reach-Inv f r in
    let g = inv.shared in
    let l = subst (Local s.shared) e (inv.each i) in
    (
      At-received s.shared.received g.rest 0 p b (subst (λ xs. At xs 0 p b) g.split l.0)
          (omega (arith, l.2.1, g.next)),
      l.1,
      λ j o. inv.alone i j p (ap owns e) o,
    )

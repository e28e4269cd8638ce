-- ===== src/Queue/History.antt =====
-- queue.cpp: the packets that were ever put in, each at the position where the ones before it end.
use functions.Base.{
  ℕ, ◌+◌, ◌%◌, ◌^◌, ◌≤◌, ◌<◌, ◌≡◌, ◌⊎◌, inl, inr, refl, sym, ap, ◌∙◌, List, [], ◌∷◌, ◌++◌, arith,
  length,
}
use mathlib.Core.Path.{subst}
use functions.Queue.{actual_len}
use functions.Queue.Packets.{actual_len_lem}
use functions.Queue.Segments.{used}

-- A packet that the queue takes.
abbrev pub IsPacket : List ℕ → Type 0
IsPacket b = (0 < length b) × (length b ≤ 2 ^ 30)

abbrev pub ArePackets : List (List ℕ) → Type 0
ArePackets [] = Unit
ArePackets (b ∷ bs) = IsPacket b × ArePackets bs

-- The packet `b` stands at `p`, where the first one stands at `base`.
abbrev pub At : List (List ℕ) → ℕ → ℕ → List ℕ → Type 0
At [] base p b = ⊥
At (c ∷ cs) base p b = ((base ≡ p) × (c ≡ b)) ⊎ At cs (base + actual_len (length c)) p b

pub cost_bounds :
    (b : List ℕ)
    → IsPacket b
    → (8 + length b ≤ actual_len (length b))
      × (actual_len (length b) ≤ length b + 15)
      × (actual_len (length b) % 8 ≡ 0)
cost_bounds b h = omega (arith, actual_len_lem (length b) h.1)

pub At-append :
    (xs ys : List (List ℕ)) (base p : ℕ) (b : List ℕ) → At xs base p b → At (xs ++ ys) base p b
At-append [] ys base p b h = absurd h
At-append (x ∷ xs) ys base p b (inl h) = inl h
At-append (x ∷ xs) ys base p b (inr h) = inr (At-append xs ys (base + actual_len (length x)) p b h)

-- A packet between two parts of the history.
pub At-middle :
    (xs : List (List ℕ)) (c : List ℕ) (ys : List (List ℕ)) (base : ℕ)
    → At (xs ++ c ∷ ys) base (base + used xs) c
At-middle [] c ys base = inl (omega arith, refl)
At-middle (x ∷ xs) c ys base = inr (
    subst (λ p. At (xs ++ c ∷ ys) (base + actual_len (length x)) p c) (omega arith)
      (At-middle xs c ys (base + actual_len (length x))))

pub At-last :
    (xs : List (List ℕ)) (c : List ℕ) (base p : ℕ) (b : List ℕ)
    → At (xs ++ c ∷ []) base p b
    → At xs base p b ⊎ ((p ≡ base + used xs) × (b ≡ c))
At-last [] c base p b (inl h) = inr (omega arith, sym h.1)
At-last [] c base p b (inr h) = absurd h
At-last (x ∷ xs) c base p b (inl h) = inl (inl h)
At-last (x ∷ xs) c base p b (inr h) = elim (At-last xs c (base + actual_len (length x)) p b h) [
  | inl before ↦ inl (inr before)
  | inr last ↦ inr (omega arith, last.1)
]

pub At-bounds :
    (xs : List (List ℕ)) (base p : ℕ) (b : List ℕ)
    → At xs base p b
    → (base ≤ p) × (p + actual_len (length b) ≤ base + used xs)
At-bounds [] base p b h = absurd h
At-bounds (x ∷ xs) base p b (inl h) = ground (arith, ap (λ (c : List ℕ). actual_len (length c)) h.1)
At-bounds (x ∷ xs) base p b (inr h) =
    omega (arith, At-bounds xs (base + actual_len (length x)) p b h)

pub At-IsPacket :
    (xs : List (List ℕ)) (base p : ℕ) (b : List ℕ) → ArePackets xs → At xs base p b → IsPacket b
At-IsPacket [] base p b g h = absurd h
At-IsPacket (x ∷ xs) base p b g (inl h) = subst IsPacket h.1 g.0
At-IsPacket (x ∷ xs) base p b g (inr h) = At-IsPacket xs (base + actual_len (length x)) p b g.1 h

pub At-aligned :
    (xs : List (List ℕ)) (base p : ℕ) (b : List ℕ)
    → ArePackets xs
    → base % 8 ≡ 0
    → At xs base p b
    → p % 8 ≡ 0
At-aligned [] base p b g a h = absurd h
At-aligned (x ∷ xs) base p b g a (inl h) = omega arith
At-aligned (x ∷ xs) base p b g a (inr h) =
    At-aligned xs (base + actual_len (length x)) p b g.1 (omega (arith, cost_bounds x g.0)) h

-- Two packets are one, or lie apart.
abbrev pub Apart : ℕ → List ℕ → ℕ → List ℕ → Type 0
Apart p b p' b' = (p + actual_len (length b) ≤ p') ⊎ (p' + actual_len (length b') ≤ p)

pub At-Apart :
    (xs : List (List ℕ)) (base p p' : ℕ) (b b' : List ℕ)
    → At xs base p b
    → At xs base p' b'
    → ((p ≡ p') × (b ≡ b')) ⊎ Apart p b p' b'
At-Apart [] base p p' b b' h k = absurd h
At-Apart (x ∷ xs) base p p' b b' (inl h) (inl k) = inl (sym h.0 ∙ k.0, sym h.1 ∙ k.1)
At-Apart (x ∷ xs) base p p' b b' (inl h) (inr k) = inr (
    inl (
      ground (
        arith,
        ap (λ (c : List ℕ). actual_len (length c)) h.1,
        At-bounds xs (base + actual_len (length x)) p' b' k,
      )))
At-Apart (x ∷ xs) base p p' b b' (inr h) (inl k) = inr (
    inr (
      ground (
        arith,
        ap (λ (c : List ℕ). actual_len (length c)) k.1,
        At-bounds xs (base + actual_len (length x)) p b h,
      )))
At-Apart (x ∷ xs) base p p' b b' (inr h) (inr k) =
    At-Apart xs (base + actual_len (length x)) p p' b b' h k

pub ArePackets-append :
    (xs : List (List ℕ)) (c : List ℕ) → ArePackets xs → IsPacket c → ArePackets (xs ++ c ∷ [])
ArePackets-append [] c g k = (k, tt)
ArePackets-append (x ∷ xs) c g k = (g.0, ArePackets-append xs c g.1 k)

pub used-append : (xs ys : List (List ℕ)) → used (xs ++ ys) ≡ used xs + used ys
used-append [] ys = omega arith
used-append (x ∷ xs) ys = omega (arith, used-append xs ys)

-- Behind a packet comes another one, or the end.
pub At-next :
    (xs : List (List ℕ)) (base p : ℕ) (b : List ℕ)
    → At xs base p b
    → (p + actual_len (length b) ≡ base + used xs)
      ⊎ ((c : List ℕ) × At xs base (p + actual_len (length b)) c)
At-next [] base p b h = absurd h
At-next (x ∷ []) base p b (inl h) =
    inl (ground (arith, ap (λ (c : List ℕ). actual_len (length c)) h.1))
At-next (x ∷ y ∷ xs) base p b (inl h) =
    inr (y, inr (inl (ground (arith, ap (λ (c : List ℕ). actual_len (length c)) h.1), refl)))
At-next (x ∷ xs) base p b (inr h) = elim (At-next xs (base + actual_len (length x)) p b h) [
  | inl last ↦ inl (omega arith)
  | inr (c, a) ↦ inr (c, inr a)
]

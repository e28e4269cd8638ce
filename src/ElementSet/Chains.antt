-- ===== src/ElementSet/Chains.antt =====
-- element_set.h: the two linked lists inside the array, and what a write to another slot does to them.
use functions.Base.{
  ℕ, ◌+◌, ◌≡◌, ◌≢◌, true, false, List, [], ◌∷◌, arith, ◌==◌, if◌then◌else◌, Bool-cases, inl, inr,
}
use functions.ElementSet.{Element, end_of_element, update, set_prev}

-- How often `a` stands in a list.
abbrev pub count : ℕ → List ℕ → ℕ
count a [] = 0
count a (x ∷ xs) = (if x == a then 1 else 0) + count a xs

-- `x`, if the list is empty, and else its last item.
abbrev pub last_of : ℕ → List ℕ → ℕ
last_of x [] = x
last_of x (y ∷ ys) = last_of y ys

module _ {T : Type 0} where
  -- The free slots from `first` on, in the order of the queue.
  abbrev pub FreeSeg : (ℕ → Element T) → ℕ → List ℕ → Type 0
  FreeSeg e first [] = first ≡ end_of_element
  FreeSeg e first (x ∷ xs) =
      (first ≡ x) × (x ≢ end_of_element) × ((e x).free ≡ true) × FreeSeg e (e x).next xs

  -- The used slots from `first` on; `before` is what the first one has in `prev`.
  abbrev pub UsedSeg : (ℕ → Element T) → ℕ → ℕ → List ℕ → Type 0
  UsedSeg e before first [] = first ≡ end_of_element
  UsedSeg e before first (x ∷ xs) =
      (first ≡ x)
      × (x ≢ end_of_element)
      × ((e x).free ≡ false)
      × ((e x).prev ≡ before)
      × UsedSeg e x (e x).next xs

  pub FreeSeg-update :
      (e : ℕ → Element T) (i : ℕ) (v : Element T) (first : ℕ) (xs : List ℕ)
      → count i xs ≡ 0
      → FreeSeg e first xs
      → FreeSeg (update e i v) first xs
  FreeSeg-update e i v first [] c s = s
  FreeSeg-update e i v first (x ∷ xs) c s = elim (Bool-cases (i == x)) [
    | inl t ↦ ground arith
    | inr f ↦ ground (arith, FreeSeg-update e i v (e x).next xs)
  ]

  pub UsedSeg-update :
      (e : ℕ → Element T) (i : ℕ) (v : Element T) (before first : ℕ) (xs : List ℕ)
      → count i xs ≡ 0
      → UsedSeg e before first xs
      → UsedSeg (update e i v) before first xs
  UsedSeg-update e i v before first [] c s = s
  UsedSeg-update e i v before first (x ∷ xs) c s = elim (Bool-cases (i == x)) [
    | inl t ↦ ground arith
    | inr f ↦ ground (arith, UsedSeg-update e i v x (e x).next xs)
  ]

  -- A segment that starts elsewhere: only `prev` of its first slot changes.
  pub UsedSeg-set_prev :
      (e : ℕ → Element T) (before before' first : ℕ) (xs : List ℕ)
      → count first xs ≡ 1
      → UsedSeg e before first xs
      → UsedSeg (set_prev e first before') before' first xs
  UsedSeg-set_prev e before before' first [] c s = s
  UsedSeg-set_prev e before before' first (x ∷ xs) c s =
      ground (arith, UsedSeg-update e x (record (e x) { prev = before' }) x (e x).next xs)

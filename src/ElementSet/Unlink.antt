-- ===== src/ElementSet/Unlink.antt =====
-- element_set.h: `put_elem` takes a slot out of the list of used ones.
use functions.Base.{
  ℕ, ◌≤◌, ◌≡◌, ◌≢◌, sym, ap, ◌∙◌, true, false, List, [], ◌∷◌, arith, ◌==◌, if◌then◌else◌,
  Bool-cases, inl, inr,
}
use mathlib.Core.Path.{subst}
use functions.ElementSet.{Element, end_of_element, set_next, set_prev}
use functions.ElementSet.Chains.{
  count, FreeSeg, UsedSeg, FreeSeg-update, UsedSeg-update, UsedSeg-set_prev,
}

-- The list without the slot `i`, at its first place.
abbrev pub remove : ℕ → List ℕ → List ℕ
remove i [] = []
remove i (x ∷ xs) = if x == i then xs else x ∷ remove i xs

module _ {T : Type 0} where
  -- The array after `unlink`, without the state.
  abbrev pub unlinked : (ℕ → Element T) → ℕ → ℕ → Element T
  unlinked e i =
      let e1 = if (e i).prev == end_of_element then e else set_next e (e i).prev (e i).next in
      if (e1 i).next == end_of_element then e1 else set_prev e1 (e1 i).next (e1 i).prev

  pub next_of :
      (e : ℕ → Element T) (i before first : ℕ) (us : List ℕ)
      → UsedSeg e before first us
      → count i us ≢ 0
      → (e i).next ≢ end_of_element
      → count (e i).next us ≢ 0
  next_of e i before first [] u c n = absurd (ground arith)
  next_of e i before first (x ∷ []) u c n = ground arith
  next_of e i before first (x ∷ y ∷ us) u c n = elim (Bool-cases (x == i)) [
    | inl t ↦
        let same : x ≡ i = ground arith in
        subst (λ j. count (e j).next (x ∷ y ∷ us) ≢ 0) same (ground (arith, u.4))
    | inr f ↦ ground (arith, next_of e i x (e x).next (y ∷ us) u.4 (ground arith) n)
  ]

  pub prev_of :
      (e : ℕ → Element T) (i before first : ℕ) (us : List ℕ)
      → UsedSeg e before first us
      → count i us ≢ 0
      → first ≢ i
      → count (e i).prev us ≢ 0
  prev_of e i before first [] u c n = absurd (ground arith)
  prev_of e i before first (x ∷ []) u c n = absurd (ground arith)
  prev_of e i before first (x ∷ y ∷ us) u c n = elim (Bool-cases (y == i)) [
    | inl t ↦
        let same : y ≡ i = ground arith in
        subst (λ j. count (e j).prev (x ∷ y ∷ us) ≢ 0) same (ground (arith, u.4))
    | inr f ↦
        ground (arith, prev_of e i x (e x).next (y ∷ us) u.4 (ground arith) (ground (arith, u.4)))
  ]

  -- The array in which `p` leads to `n` and `n` back to `p`.
  abbrev pub linked : (ℕ → Element T) → ℕ → ℕ → ℕ → Element T
  linked e p n =
      let e1 = if p == end_of_element then e else set_next e p n in
      if n == end_of_element then e1 else set_prev e1 n p

  pub unlinked-linked :
      (e : ℕ → Element T) (i : ℕ) → (e i).prev ≢ i → unlinked e i ≡ linked e (e i).prev (e i).next
  unlinked-linked e i h =
      ap (λ c. if c.next == end_of_element then e1 else set_prev e1 c.next c.prev) same
    where
      e1 : ℕ → Element T
      e1 = if (e i).prev == end_of_element then e else set_next e (e i).prev (e i).next

      same : e1 i ≡ e i
      same = ground arith

  pub linked_other : (e : ℕ → Element T) (p n x : ℕ) → x ≢ p → x ≢ n → linked e p n x ≡ e x
  linked_other e p n x hp hn = ground arith

  linked_before :
      (e : ℕ → Element T) (p n : ℕ)
      → p ≢ end_of_element
      → p ≢ n
      → linked e p n p ≡ record (e p) { next = n }
  linked_before e p n h ne = elim (Bool-cases (n == end_of_element)) [
    | inl t ↦ rw t (ground arith)
    | inr f ↦ rw f (ground arith)
  ]

  first_used_once :
      (e : ℕ → Element T) (before n : ℕ) (us : List ℕ)
      → n ≢ end_of_element
      → UsedSeg e before n us
      → count n us ≢ 0
  first_used_once e before n [] h u = ground arith
  first_used_once e before n (y ∷ us) h u = ground arith

  used_end :
      (e : ℕ → Element T) (before before' n : ℕ) (us : List ℕ)
      → n ≡ end_of_element
      → UsedSeg e before n us
      → UsedSeg e before' n us
  used_end e before before' n [] h u = u
  used_end e before before' n (y ∷ us) h u = absurd (ground arith)

  -- The used slots behind the one that is taken out.
  linked_tail :
      (e : ℕ → Element T) (p n i : ℕ) (us : List ℕ)
      → count p us ≡ 0
      → count n us ≤ 1
      → UsedSeg e i n us
      → UsedSeg (linked e p n) p n us
  linked_tail e p n i us hp hn u = elim (Bool-cases (n == end_of_element)) [
    | inl t ↦ rw t (used_end e1 i p n us (ground arith) kept)
    | inr f ↦ rw f (
        UsedSeg-set_prev e1 i p n us (omega (arith, first_used_once e i n us (ground arith) u))
          kept)
  ]
    where
      e1 : ℕ → Element T
      e1 = if p == end_of_element then e else set_next e p n

      kept : UsedSeg e1 i n us
      kept = elim (Bool-cases (p == end_of_element)) [
        | inl t ↦ rw t u
        | inr f ↦ rw f (UsedSeg-update e p _ i n us hp u)
      ]

  pub linked_free :
      (e : ℕ → Element T) (p n first : ℕ) (fs : List ℕ)
      → count p fs ≡ 0
      → count n fs ≡ 0
      → FreeSeg e first fs
      → FreeSeg (linked e p n) first fs
  linked_free e p n first fs hp hn s = elim (Bool-cases (n == end_of_element)) [
    | inl t ↦ rw t kept
    | inr f ↦ rw f (FreeSeg-update e1 n _ first fs hn kept)
  ]
    where
      e1 : ℕ → Element T
      e1 = if p == end_of_element then e else set_next e p n

      kept : FreeSeg e1 first fs
      kept = elim (Bool-cases (p == end_of_element)) [
        | inl t ↦ rw t s
        | inr f ↦ rw f (FreeSeg-update e p _ first fs hp s)
      ]

  pub head_prev :
      (e : ℕ → Element T) (before first : ℕ) (us : List ℕ)
      → UsedSeg e before first us
      → count first us ≢ 0
      → (e first).prev ≡ before
  head_prev e before first [] u c = absurd (ground arith)
  head_prev e before first (y ∷ us) u c = subst (λ j. (e j).prev ≡ before) (sym u.0) u.3

  -- Where `i` comes first.
  removed_here :
      (e : ℕ → Element T) (i before x : ℕ) (us : List ℕ)
      → x ≡ i
      → (e x).prev ≡ before
      → count before us ≡ 0
      → count (e i).next us ≤ 1
      → UsedSeg e x (e x).next us
      → UsedSeg (linked e (e i).prev (e i).next) before (e i).next us
  removed_here e i before x us same p b n u =
      subst (λ j. UsedSeg (linked e (e i).prev (e i).next) j (e i).next us) prev_i
        (linked_tail e (e i).prev (e i).next i us (ap (λ j. count j us) prev_i ∙ b) n
          (subst (λ j. UsedSeg e j (e j).next us) same u))
    where
      prev_i : (e i).prev ≡ before
      prev_i = subst (λ j. (e j).prev ≡ before) same p

  -- A slot that comes before `i`.
  linked_at :
      (e : ℕ → Element T) (i x : ℕ) (us : List ℕ)
      → x ≢ end_of_element
      → count i us ≡ 1
      → count x us ≡ 0
      → UsedSeg e x (e x).next us
      → linked e (e i).prev (e i).next x
        ≡ record (e x) { next = if (e x).next == i then (e i).next else (e x).next }
  linked_at e i x us ne c h u = elim (Bool-cases ((e x).next == i)) [
    | inl t ↦ rw t (before (ground arith))
    | inr f ↦ rw f (linked_other e (e i).prev (e i).next x (not_prev (ground arith)) not_next)
  ]
    where
      not_next : x ≢ (e i).next
      not_next = λ q.
          next_of e i x (e x).next us u (omega arith) (λ r. ne (q ∙ r))
            (ap (λ j. count j us) (sym q) ∙ h)

      not_prev : (e x).next ≢ i → x ≢ (e i).prev
      not_prev d =
          λ q. prev_of e i x (e x).next us u (omega arith) d (ap (λ j. count j us) (sym q) ∙ h)

      before :
          (e x).next ≡ i → linked e (e i).prev (e i).next x ≡ record (e x) { next = (e i).next }
      before q =
          let p : (e i).prev ≡ x =
            subst (λ j. (e j).prev ≡ x) q
              (head_prev e x (e x).next us u (subst (λ j. count j us ≢ 0) (sym q) (omega arith))) in
          subst (λ j. linked e j (e i).next x ≡ record (e x) { next = (e i).next }) (sym p)
            (linked_before e x (e i).next ne not_next)

  -- The used slots without `i`.
  pub linked-removed :
      (e : ℕ → Element T) (i before first : ℕ) (us : List ℕ)
      → UsedSeg e before first us
      → count i us ≡ 1
      → count before us ≡ 0
      → ((a : ℕ) → count a us ≤ 1)
      → UsedSeg
          (linked e (e i).prev (e i).next)
          before
          (if first == i then (e i).next else first)
          (remove i us)
  linked-removed e i before first [] u c b once = absurd (ground arith)
  linked-removed e i before first (x ∷ us) u c b once = elim (Bool-cases (x == i)) [
    | inl t ↦
        let head : (first == i) ≡ true = ground (arith, u.0) in
        rw (head, t)
          (removed_here e i before x us (ground arith) u.3 (ground arith)
            (ground (arith, once (e i).next)) u.4)
    | inr f ↦
        let head : (first == i) ≡ false = ground (arith, u.0) in
        rw (head, f)
          (
            u.0,
            u.1,
            ap (λ c. c.free) (here (ground arith)) ∙ u.2,
            ap (λ c. c.prev) (here (ground arith)) ∙ u.3,
            subst (λ m. UsedSeg (linked e (e i).prev (e i).next) x m (remove i us))
                (sym (ap (λ c. c.next) (here (ground arith))))
                (linked-removed e i x (e x).next us u.4 (ground arith) no_x
                  (λ a. ground (arith, once a))),
          )
  ]
    where
      no_x : count x us ≡ 0
      no_x = ground (arith, once x)

      here :
          count i us ≡ 1
          → linked e (e i).prev (e i).next x
            ≡ record (e x) { next = if (e x).next == i then (e i).next else (e x).next }
      here ci = linked_at e i x us u.1 ci no_x u.4

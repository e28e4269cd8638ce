-- ===== src/ElementSet/Enqueue.antt =====
-- element_set.h: `put_elem` puts a slot at the end of the queue of free ones.
use mathlib.Core.Path.{subst}
use functions.Base.{
  ℕ, ◌+◌, ◌≤◌, ◌≡◌, ◌≢◌, ◌⊎◌, refl, sym, ap, ◌∙◌, true, false, List, [], ◌∷◌, ◌++◌, arith, ◌==◌,
  if◌then◌else◌, Bool-cases, inl, inr,
}
use functions.ElementSet.{Element, end_of_element, set_next, set_free}
use functions.ElementSet.Chains.{count, last_of, FreeSeg, UsedSeg, UsedSeg-update}
use functions.ElementSet.Refine.{last_of-mem}
use functions.ElementSet.Unlink.{remove}

module _ {T : Type 0} where
  -- The array after `enqueue`, without the state.
  abbrev pub enqueued : (ℕ → Element T) → ℕ → ℕ → ℕ → Element T
  enqueued e i last =
      let e1 = set_next e i end_of_element in
      set_free (if last == end_of_element then e1 else set_next e1 last i) i true

  enqueued_at :
      (e : ℕ → Element T) (i last : ℕ)
      → last ≢ i
      → enqueued e i last i ≡ record (e i) { next = end_of_element; free = true }
  enqueued_at e i last h = elim (Bool-cases (last == end_of_element)) [
    | inl t ↦ rw t (ground arith)
    | inr f ↦ rw f (ground arith)
  ]

  enqueued_last :
      (e : ℕ → Element T) (i last : ℕ)
      → last ≢ i
      → last ≢ end_of_element
      → enqueued e i last last ≡ record (e last) { next = i }
  enqueued_last e i last h ne = elim (Bool-cases (last == end_of_element)) [
    | inl t ↦ absurd (ground arith)
    | inr f ↦ rw f (ground arith)
  ]

  enqueued_other : (e : ℕ → Element T) (i last x : ℕ) → x ≢ i → x ≢ last → enqueued e i last x ≡ e x
  enqueued_other e i last x h k = ground arith

  pub enqueued-free :
      (e : ℕ → Element T) (i last f : ℕ) (fs : List ℕ)
      → i ≢ end_of_element
      → last ≡ last_of end_of_element fs
      → count i fs ≡ 0
      → ((a : ℕ) → count a fs ≤ 1)
      → FreeSeg e f fs
      → FreeSeg (enqueued e i last) (if f == end_of_element then i else f) (fs ++ (i ∷ []))
  enqueued-free e i last f [] ne l c once s = ground arith
  enqueued-free e i last f (x ∷ []) ne l c once s =
      let at_x : enqueued e i last x ≡ record (e x) { next = i } =
        subst (λ j. enqueued e i last j ≡ record (e j) { next = i }) l
          (enqueued_last e i last (ground arith) (ground (arith, s.1))) in
      let at_i : enqueued e i last i ≡ record (e i) { next = end_of_element; free = true } =
        enqueued_at e i last (ground arith) in
      (
        ground (arith, s.0, s.1),
        s.1,
        ap (λ c. c.free) at_x ∙ s.2,
        (ap (λ c. c.next) at_x, ne, ap (λ c. c.free) at_i, ap (λ c. c.next) at_i),
      )
  enqueued-free e i last f (x ∷ y ∷ ys) ne l c once s =
      let at_x : enqueued e i last x ≡ e x =
        enqueued_other e i last x (ground arith) (ground (arith, last_of-mem y ys, once x)) in
      let first : (if (e x).next == end_of_element then i else (e x).next) ≡ (e x).next =
        ground (arith, s.3) in
      (
        ground (arith, s.0, s.1),
        s.1,
        ap (λ c. c.free) at_x ∙ s.2,
        subst (λ m. FreeSeg (enqueued e i last) m ((y ∷ ys) ++ (i ∷ [])))
            (first ∙ sym (ap (λ c. c.next) at_x))
            (enqueued-free e i last (e x).next (y ∷ ys) ne l (ground arith)
              (λ a. ground (arith, once a)) s.3),
      )

  pub enqueued-used :
      (e : ℕ → Element T) (i last before first : ℕ) (us : List ℕ)
      → count i us ≡ 0
      → count last us ≡ 0
      → UsedSeg e before first us
      → UsedSeg (enqueued e i last) before first us
  enqueued-used e i last before first us c d u = elim (Bool-cases (last == end_of_element)) [
    | inl t ↦ rw t (UsedSeg-update e1 i _ before first us c kept)
    | inr f ↦
        rw f
          (UsedSeg-update _ i _ before first us c (UsedSeg-update e1 last _ before first us d kept))
  ]
    where
      e1 : ℕ → Element T
      e1 = set_next e i end_of_element

      kept : UsedSeg e1 before first us
      kept = UsedSeg-update e i _ before first us c u

  pub prev_ne :
      (e : ℕ → Element T) (i before first : ℕ) (us : List ℕ)
      → UsedSeg e before first us
      → count i us ≡ 1
      → before ≢ i
      → (e i).prev ≢ i
  prev_ne e i before first [] u c b = absurd (ground arith)
  prev_ne e i before first (x ∷ us) u c b = elim (Bool-cases (x == i)) [
    | inl t ↦
        let same : x ≡ i = ground arith in
        λ q. b (sym (subst (λ j. (e j).prev ≡ before) same u.3) ∙ q)
    | inr f ↦ prev_ne e i x (e x).next us u.4 (ground arith) (ground arith)
  ]

  pub next_ne :
      (e : ℕ → Element T) (i before first : ℕ) (us : List ℕ)
      → UsedSeg e before first us
      → count i us ≡ 1
      → i ≢ end_of_element
      → (e i).next ≢ i
  next_ne e i before first [] u c ne = absurd (ground arith)
  next_ne e i before first (x ∷ []) u c ne =
      let same : x ≡ i = ground arith in subst (λ j. (e j).next ≢ j) same (λ q. u.1 (sym q ∙ u.4))
  next_ne e i before first (x ∷ y ∷ us) u c ne = elim (Bool-cases (x == i)) [
    | inl t ↦
        let same : x ≡ i = ground arith in subst (λ j. (e j).next ≢ j) same (ground (arith, u.4))
    | inr f ↦ next_ne e i x (e x).next (y ∷ us) u.4 (ground arith) ne
  ]

  pub used-marked :
      (e : ℕ → Element T) (i before first : ℕ) (us : List ℕ)
      → UsedSeg e before first us
      → count i us ≢ 0
      → (e i).free ≡ false
  used-marked e i before first [] u c = absurd (ground arith)
  used-marked e i before first (x ∷ us) u c = elim (Bool-cases (x == i)) [
    | inl t ↦ let same : x ≡ i = ground arith in subst (λ j. (e j).free ≡ false) same u.2
    | inr f ↦ used-marked e i x (e x).next us u.4 (ground arith)
  ]

  pub free-marked :
      (e : ℕ → Element T) (i first : ℕ) (fs : List ℕ)
      → FreeSeg e first fs
      → count i fs ≢ 0
      → (e i).free ≡ true
  free-marked e i first [] u c = absurd (ground arith)
  free-marked e i first (x ∷ fs) u c = elim (Bool-cases (x == i)) [
    | inl t ↦ let same : x ≡ i = ground arith in subst (λ j. (e j).free ≡ true) same u.2
    | inr f ↦ free-marked e i (e x).next fs u.3 (ground arith)
  ]

pub count-append :
    (i a : ℕ) (fs : List ℕ) → count a (i ∷ []) + count a fs ≡ count a (fs ++ (i ∷ []))
count-append i a [] = omega arith
count-append i a (f ∷ fs) = omega (count-append i a fs, arith)

pub count-remove :
    (a i : ℕ) (us : List ℕ) → count i us ≢ 0 → count a (remove i us) + count a (i ∷ []) ≡ count a us
count-remove a i [] c = absurd (ground arith)
count-remove a i (x ∷ us) c = ground (arith, count-remove a i us)

pub last_of-append : (x i : ℕ) (fs : List ℕ) → last_of x (fs ++ (i ∷ [])) ≡ i
last_of-append x i [] = refl
last_of-append x i (y ∷ fs) = last_of-append y i fs

pub last_count :
    (l : ℕ) (fs : List ℕ) → l ≡ last_of end_of_element fs → (l ≡ end_of_element) ⊎ (count l fs ≢ 0)
last_count l [] e = inl e
last_count l (y ∷ ys) e = inr (subst (λ j. count j (y ∷ ys) ≢ 0) (sym e) (last_of-mem y ys))

-- ===== src/ElementSet/Give.antt =====
-- element_set.h: `put_elem` against the queue of free slots and the list of used ones.
use mathlib.Core.Path.{subst}
use functions.Base.{
  ℕ, zero, suc, ◌<◌, ◌≡◌, ◌≢◌, refl, sym, ap, ◌∙◌, Bool, true, false, not, ◌||◌, List, [], ◌∷◌,
  ◌++◌, arith, leb, ◌==◌, if◌then◌else◌, Bool-cases, inl, inr,
}
use functions.ElementSet.{Element, ElementSet, end_of_element, unlink, enqueue, put_elem}
use functions.ElementSet.Chains.{count, UsedSeg}
use functions.ElementSet.Refine.{Holds}
use functions.ElementSet.Unlink.{
  remove, linked, unlinked-linked, linked_other, linked_free, linked-removed, next_of, prev_of,
  head_prev,
}
use functions.ElementSet.Enqueue.{
  enqueued, enqueued-free, enqueued-used, prev_ne, next_ne, used-marked, free-marked, count-append,
  count-remove, last_of-append, last_count,
}

module _ {T : Type 0} (s : ElementSet T) (i : ℕ) (fs us : List ℕ) (v : Holds s fs us) where
  -- What a slot that is used says of its links.
  record Links : Type 0 where
    small : i < s.element_count
    not_free : count i fs ≡ 0
    prev_other : (s.elements i).prev ≢ i
    next_other : (s.elements i).next ≢ i
    prev_unfree : count (s.elements i).prev fs ≡ 0
    next_unfree : count (s.elements i).next fs ≡ 0

  end_nowhere : (count end_of_element fs ≡ 0) × (count end_of_element us ≡ 0)
  end_nowhere = ground (arith, v.parted end_of_element, v.small)

  links : count i us ≡ 1 → Links
  links c = record {
    small = bound;
    not_free = ground (arith, v.parted i);
    prev_other = prev_ne s.elements i end_of_element s.first_used us v.useds c not_end;
    next_other =
        next_ne s.elements i end_of_element s.first_used us v.useds c (λ q. not_end (sym q));
    prev_unfree = elim (Bool-cases (s.first_used == i)) [
      | inl t ↦
          let first : s.first_used ≡ i = ground arith in
          ap (λ a. count a fs)
            (subst (λ j. (s.elements j).prev ≡ end_of_element) first
              (head_prev s.elements end_of_element s.first_used us v.useds
                (subst (λ j. count j us ≢ 0) (sym first) (omega arith))))
          ∙ end_nowhere.0
      | inr f ↦
          let used : count (s.elements i).prev us ≢ 0 =
            prev_of s.elements i end_of_element s.first_used us v.useds (omega arith)
              (ground arith) in
          ground (arith, v.parted (s.elements i).prev)
    ];
    next_unfree = elim (Bool-cases ((s.elements i).next == end_of_element)) [
      | inl t ↦
          let last : (s.elements i).next ≡ end_of_element = ground arith in
          ap (λ a. count a fs) last ∙ end_nowhere.0
      | inr f ↦
          let used : count (s.elements i).next us ≢ 0 =
            next_of s.elements i end_of_element s.first_used us v.useds (omega arith)
              (ground arith) in
          ground (arith, v.parted (s.elements i).next)
    ];
  }
    where
      bound : i < s.element_count
      bound = ground (arith, v.parted i)

      not_end : end_of_element ≢ i
      not_end = omega (arith, bound, v.small)

  -- The set with the array `a` in place of the one that `unlink` leaves.
  abbrev given_with : (ℕ → Element T) → ElementSet T
  given_with a = record s {
    elements = enqueued a i s.last_free;
    last_free = i;
    first_free = if s.first_free == end_of_element then i else s.first_free;
    first_used = if s.first_used == i then (a i).next else s.first_used;
  }

  abbrev without : ℕ → Element T
  without = linked s.elements (s.elements i).prev (s.elements i).next

  given-Holds : count i us ≡ 1 → Holds (given_with without) (fs ++ (i ∷ [])) (remove i us)
  given-Holds c = record {
    ready = v.ready;
    small = v.small;
    frees =
        enqueued-free without i s.last_free s.first_free fs (λ q. omega (arith, l.small, v.small))
          v.last l.not_free (λ a. ground (arith, v.parted a))
          (linked_free s.elements (s.elements i).prev (s.elements i).next s.first_free fs
            l.prev_unfree l.next_unfree v.frees);
    last = sym (last_of-append end_of_element i fs);
    useds = enqueued-used without i s.last_free end_of_element _ (remove i us) removed last_unused (
        subst
          (λ n.
            UsedSeg without end_of_element (if s.first_used == i then n else s.first_used)
              (remove i us))
          (sym (ap (λ c. c.next) same_i))
          (linked-removed s.elements i end_of_element s.first_used us v.useds c end_nowhere.1
            (λ a. ground (arith, v.parted a))));
    parted = λ a. omega (arith, v.parted a, count-append i a fs, count-remove a i us (omega arith));
  }
    where
      l : Links
      l = links c

      same_i : without i ≡ s.elements i
      same_i =
          linked_other s.elements (s.elements i).prev (s.elements i).next i
            (λ q. l.prev_other (sym q)) (λ q. l.next_other (sym q))

      removed : count i (remove i us) ≡ 0
      removed = ground (arith, count-remove i i us (omega arith))

      last_unused : count s.last_free (remove i us) ≡ 0
      last_unused = elim (last_count s.last_free fs v.last) [
        | inl t ↦
            let none : count s.last_free us ≡ 0 = ap (λ a. count a us) t ∙ end_nowhere.1 in
            omega (arith, none, count-remove s.last_free i us (omega arith))
        | inr q ↦ ground (arith, v.parted s.last_free, count-remove s.last_free i us (omega arith))
      ]

  unlinked-Holds : count i us ≡ 1 → Holds (enqueue i (unlink i s)) (fs ++ (i ∷ [])) (remove i us)
  unfolding enqueue unlink
  unlinked-Holds c =
      subst (λ a. Holds (given_with a) (fs ++ (i ∷ [])) (remove i us))
        (sym (unlinked-linked s.elements i (links c).prev_other)) (given-Holds c)

  -- What `put_elem` makes of a slot that stands so often in the list of used ones.
  abbrev pub GivenBy : ℕ → Bool × ElementSet T → Type 0
  GivenBy zero r = r ≡ (false, s)
  GivenBy (suc n) r = (r.0 ≡ true) × Holds r.1 (fs ++ (i ∷ [])) (remove i us)

  put_elem_by : (n : ℕ) → count i us ≡ n → GivenBy n (put_elem i s)
  unfolding put_elem
  put_elem_by zero c = rw refused refl
    where
      refused : (not s.ready || (leb s.element_count i || (s.elements i).free)) ≡ true
      refused = elim (Bool-cases (leb s.element_count i)) [
        | inl t ↦ ground (arith, t)
        | inr f ↦
            let marked : (s.elements i).free ≡ true =
              free-marked s.elements i s.first_free fs v.frees (ground (arith, v.parted i)) in
            ground (arith, f, marked)
      ]
  put_elem_by (suc n) c = rw taken (refl, unlinked-Holds once)
    where
      once : count i us ≡ 1
      once = ground (arith, v.parted i)

      taken : (not s.ready || (leb s.element_count i || (s.elements i).free)) ≡ false
      taken = ground (
        arith,
        v.ready,
        (links once).small,
        used-marked s.elements i end_of_element s.first_used us v.useds (omega arith),
      )

  -- On a set that holds a queue of free slots and a list of used ones, `put_elem` of a used slot puts it
  -- at the end of the queue and takes it out of the list; of any other number it refuses, and nothing
  -- changes.
  pub put_elem-Given : GivenBy (count i us) (put_elem i s)
  put_elem-Given = put_elem_by (count i us) refl

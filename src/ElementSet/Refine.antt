-- ===== src/ElementSet/Refine.antt =====
-- element_set.h: `get_elem` and `put_elem` against a queue of free slots and a list of used ones.
use mathlib.Core.Path.{subst}
use functions.Base.{
  ℕ, ◌+◌, ◌≤◌, ◌<◌, ◌≡◌, ◌≢◌, refl, sym, ap, true, false, List, [], ◌∷◌, arith, ltb, ◌==◌,
  if◌then◌else◌, Bool-cases, inl, inr, not, ◌||◌,
}
use functions.ElementSet.{
  Element, ElementSet, end_of_element, update, set_prev, take_first, get_elem,
}
use functions.ElementSet.Chains.{
  count, last_of, FreeSeg, UsedSeg, FreeSeg-update, UsedSeg-update, UsedSeg-set_prev,
}

-- The set holds the free slots `fs`, the next one to be taken first, and the used slots `us`, the last
-- one taken first; each slot of the array stands once in one of the two.
pub record Holds {T : Type 0} (s : ElementSet T) (fs us : List ℕ) : Type 0 where
  pub ready : s.ready ≡ true
  pub small : s.element_count < end_of_element
  pub frees : FreeSeg s.elements s.first_free fs
  pub last : s.last_free ≡ last_of end_of_element fs
  pub useds : UsedSeg s.elements end_of_element s.first_used us
  pub parted : (a : ℕ) → count a fs + count a us ≡ (if ltb a s.element_count then 1 else 0)

pub last_of-mem : (x : ℕ) (ys : List ℕ) → count (last_of x ys) (x ∷ ys) ≢ 0
last_of-mem x [] = ground arith
last_of-mem x (y ∷ ys) = ground (arith, last_of-mem y ys)

last_after :
    (l x : ℕ) (fs : List ℕ)
    → l ≡ last_of x fs
    → count x fs ≡ 0
    → (if l == x then end_of_element else l) ≡ last_of end_of_element fs
last_after l x [] e c = ground arith
last_after l x (y ∷ ys) e c = ground (arith, last_of-mem y ys)

module _ {T : Type 0} where
  -- What `take_first` makes of the array, written without the state.
  abbrev relinked : (ℕ → Element T) → ℕ → Element T → ℕ → ℕ → Element T
  relinked e x v first =
      if first == end_of_element then update e x v else set_prev (update e x v) first x

  used_count :
      (e : ℕ → Element T) (before first : ℕ) (us : List ℕ)
      → ((first == end_of_element) ≡ false)
      → UsedSeg e before first us
      → count first us ≢ 0
  used_count e before first [] f u = ground arith
  used_count e before first (y ∷ us) f u = ground arith

  UsedSeg-end :
      (e : ℕ → Element T) (before before' first : ℕ) (us : List ℕ)
      → (first == end_of_element) ≡ true
      → UsedSeg e before first us
      → UsedSeg e before' first us
  UsedSeg-end e before before' first [] t u = u
  UsedSeg-end e before before' first (y ∷ us) t u = ground arith

  relinked_used :
      (e : ℕ → Element T) (x : ℕ) (v : Element T) (before first : ℕ) (us : List ℕ)
      → count x us ≡ 0
      → count first us ≤ 1
      → UsedSeg e before first us
      → UsedSeg (relinked e x v first) x first us
  relinked_used e x v before first us c d u = elim (Bool-cases (first == end_of_element)) [
    | inl t ↦
        rw t (
          UsedSeg-end (update e x v) before x first us t (UsedSeg-update e x v before first us c u))
    | inr f ↦ rw f (
        UsedSeg-set_prev (update e x v) before x first us
          (omega (arith, used_count e before first us f u))
          (UsedSeg-update e x v before first us c u))
  ]

  relinked_free :
      (e : ℕ → Element T) (x : ℕ) (v : Element T) (first f : ℕ) (fs : List ℕ)
      → count x fs ≡ 0
      → count first fs ≡ 0
      → FreeSeg e f fs
      → FreeSeg (relinked e x v first) f fs
  relinked_free e x v first f fs c d s = elim (Bool-cases (first == end_of_element)) [
    | inl t ↦ rw t (FreeSeg-update e x v f fs c s)
    | inr q ↦ rw q (FreeSeg-update (update e x v) first _ f fs d (FreeSeg-update e x v f fs c s))
  ]

  relinked_at :
      (e : ℕ → Element T) (x : ℕ) (v : Element T) (first : ℕ)
      → x ≢ first
      → relinked e x v first x ≡ v
  relinked_at e x v first h = ground arith

  -- Where the head of the used list stands.
  first_used_lem :
      (s : ElementSet T) (x : ℕ) (fs us : List ℕ)
      → Holds s (x ∷ fs) us
      → (count s.first_used fs ≡ 0) × (count s.first_used us ≤ 1) × (x ≢ s.first_used)
  first_used_lem s x fs us v =
      let p = v.parted s.first_used in
      let q = v.parted x in
      elim (Bool-cases (s.first_used == end_of_element)) [
        | inl t ↦ ground (arith, v.frees.1, v.small)
        | inr f ↦ ground (arith, used_count s.elements end_of_element s.first_used us f v.useds)
      ]

  taken-Holds :
      (s : ElementSet T) (x : ℕ) (fs us : List ℕ)
      → Holds s (x ∷ fs) us
      → Holds (take_first x s) fs (x ∷ us)
  unfolding take_first
  taken-Holds s x fs us v = record {
    ready = v.ready;
    small = v.small;
    frees = relinked_free s.elements x moved s.first_used _ fs x_once f.0 v.frees.3;
    last = last_after s.last_free x fs v.last x_once;
    useds = (
      refl,
      v.frees.1,
      ap (λ c. c.free) now,
      ap (λ c. c.prev) now,
      subst (λ n. UsedSeg (relinked s.elements x moved s.first_used) x n us)
          (sym (ap (λ c. c.next) now))
          (relinked_used s.elements x moved end_of_element s.first_used us x_free f.1 v.useds),
    );
    parted = λ a. omega (arith, v.parted a);
  }
    where
      moved : Element T
      moved = record (s.elements x) { free = false; prev = end_of_element; next = s.first_used }

      f : (count s.first_used fs ≡ 0) × (count s.first_used us ≤ 1) × (x ≢ s.first_used)
      f = first_used_lem s x fs us v

      x_once : count x fs ≡ 0
      x_once = ground (arith, v.parted x)

      x_free : count x us ≡ 0
      x_free = ground (arith, v.parted x)

      now : relinked s.elements x moved s.first_used x ≡ moved
      now = relinked_at s.elements x moved s.first_used f.2

  -- What `get_elem` does to a set that holds `fs` and `us`.
  abbrev pub Taken : ElementSet T → List ℕ → List ℕ → ℕ × ElementSet T → Type 0
  Taken s [] us r = r ≡ (end_of_element, s)
  Taken s (x ∷ fs) us r = (r.0 ≡ x) × Holds r.1 fs (x ∷ us)

  -- On a set that holds a queue of free slots and a list of used ones, taking a slot answers the head of
  -- the queue, which becomes the head of the list; with no free slot it answers END_OF_ELEMENT and
  -- changes nothing.
  pub get_elem-Taken :
      (s : ElementSet T) (fs us : List ℕ) → Holds s fs us → Taken s fs us (get_elem s)
  unfolding get_elem
  get_elem-Taken s [] us v = ground arith
  get_elem-Taken s (x ∷ fs) us v =
      rw (some_free, get_elem, Taken)
        (
          v.frees.0,
          subst (λ i. Holds (take_first i s) fs (x ∷ us)) (sym v.frees.0) (taken-Holds s x fs us v),
        )
    where
      some_free : (not s.ready || s.first_free == end_of_element) ≡ false
      some_free = ground (arith, v.frees.0, v.frees.1, v.ready)

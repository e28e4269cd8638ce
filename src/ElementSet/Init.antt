-- ===== src/ElementSet/Init.antt =====
-- element_set.h: `init` leaves all slots in the queue of free ones, in their order.
use functions.Base.{
  ℕ, zero, suc, ◌+◌, ◌-◌, ◌≤◌, ◌<◌, ◌≡◌, refl, sym, ap, ◌∙◌, true, false, ◌||◌, List, [], ◌∷◌,
  Option, none, some, arith, ltb, ◌==◌, if◌then◌else◌, Bool-cases, inl, inr, uint_max,
}
use mathlib.Core.Path.{subst}
use functions.ElementSet.{
  Element, ElementSet, end_of_element, update, set_next, set_free, link_slots, init_slots, init,
}
use functions.ElementSet.Chains.{count, last_of, FreeSeg}
use functions.ElementSet.Refine.{Holds}

-- The numbers from `i` on.
abbrev pub range : ℕ → ℕ → List ℕ
range zero i = []
range (suc n) i = i ∷ range n (i + 1)

count-range :
    (a n i : ℕ) → count a (range n i) ≡ (if ltb a i then 0 else if ltb a (i + n) then 1 else 0)
count-range a zero i = ground arith
count-range a (suc n) i = ground (arith, count-range a n (i + 1))

last_of-range : (x n i : ℕ) → last_of x (range (suc n) i) ≡ i + n
last_of-range x zero i = omega arith
last_of-range x (suc n) i = last_of-range i n (i + 1) ∙ omega arith

module _ {T : Type 0} where
  -- The slot leads to the next one and is free.
  abbrev Leads : (ℕ → Element T) → ℕ → Type 0
  Leads e k = ((e k).next ≡ k + 1) × ((e k).free ≡ true)

  link_slots-below : (n i : ℕ) (e : ℕ → Element T) (k : ℕ) → k < i → link_slots n i e k ≡ e k
  unfolding link_slots
  link_slots-below zero i e k h = refl
  link_slots-below (suc n) i e k h =
      link_slots-below n (i + 1) (set_free (set_next e i (i + 1)) i true) k (omega arith)
      ∙ ground arith

  link_slots-Leads :
      (n i : ℕ) (e : ℕ → Element T) (k : ℕ) → i ≤ k → k < i + n → Leads (link_slots n i e) k
  unfolding link_slots
  link_slots-Leads zero i e k h l = absurd (omega arith)
  link_slots-Leads (suc n) i e k h l = elim (Bool-cases (i == k)) [
    | inl t ↦
        let same : link_slots n (i + 1) (set_free (set_next e i (i + 1)) i true) k
            ≡ set_free (set_next e i (i + 1)) i true k =
          link_slots-below n (i + 1) (set_free (set_next e i (i + 1)) i true) k (ground arith) in
        (ap (λ c. c.next) same ∙ ground arith, ap (λ c. c.free) same ∙ ground arith)
    | inr f ↦
        link_slots-Leads n (i + 1) (set_free (set_next e i (i + 1)) i true) k (ground arith)
          (omega arith)
  ]

  range-FreeSeg :
      (n i : ℕ) (e : ℕ → Element T)
      → i + n < end_of_element
      → ((k : ℕ) → i ≤ k → k < i + n → Leads e k)
      → (e (i + n)).next ≡ end_of_element
      → (e (i + n)).free ≡ true
      → FreeSeg e i (range (suc n) i)
  range-FreeSeg zero i e h leads n f =
      let z : i + 0 ≡ i = omega arith in
      (
        refl,
        omega arith,
        subst (λ j. (e j).free ≡ true) z f,
        subst (λ j. (e j).next ≡ end_of_element) z n,
      )
  range-FreeSeg (suc n) i e h leads nx f =
      let z : i + suc n ≡ i + 1 + n = omega arith in
      let here = leads i (omega arith) (omega arith) in
      (
        refl,
        omega arith,
        here.1,
        subst (λ j. FreeSeg e j (range (suc n) (i + 1))) (sym here.0)
            (range-FreeSeg n (i + 1) e (omega arith) (λ k a b. leads k (omega arith) (omega arith))
              (subst (λ j. (e j).next ≡ end_of_element) z nx) (subst (λ j. (e j).free ≡ true) z f)),
      )

  -- `init_proc` changes only what the slots hold.
  init_slots-same :
      (n i : ℕ) (f : T → T) (e : ℕ → Element T) (k : ℕ)
      → ((init_slots n i f e k).next ≡ (e k).next) × ((init_slots n i f e k).free ≡ (e k).free)
  unfolding init_slots
  init_slots-same zero i f e k = (refl, refl)
  init_slots-same (suc n) i f e k =
      let r =
        init_slots-same n (i + 1) f (update e i (record (e i) { content = f (e i).content })) k in
      (r.0 ∙ ground arith, r.1 ∙ ground arith)

  -- The array behind the first loop, of `n + 1` slots.
  abbrev closed : ℕ → (ℕ → Element T) → ℕ → Element T
  closed n raw = set_free (set_next (link_slots n 0 raw) n end_of_element) n true

  closed-Leads : (n : ℕ) (raw : ℕ → Element T) (k : ℕ) → k < n → Leads (closed n raw) k
  closed-Leads n raw k h =
      let same : closed n raw k ≡ link_slots n 0 raw k = ground arith in
      let leads = link_slots-Leads n 0 raw k (omega arith) (omega arith) in
      (ap (λ c. c.next) same ∙ leads.0, ap (λ c. c.free) same ∙ leads.1)

  closed_end :
      (n : ℕ) (raw : ℕ → Element T)
      → ((closed n raw n).next ≡ end_of_element) × ((closed n raw n).free ≡ true)
  closed_end n raw = (ground arith, ground arith)

  -- An array whose slots lead on as those of `closed` do.
  made-FreeSeg :
      (n : ℕ) (raw e : ℕ → Element T)
      → n < end_of_element
      → ((k : ℕ) → ((e k).next ≡ (closed n raw k).next) × ((e k).free ≡ (closed n raw k).free))
      → FreeSeg e 0 (range (suc n) 0)
  made-FreeSeg n raw e h same =
      range-FreeSeg n 0 e (omega arith)
        (λ k a b.
          let leads = closed-Leads n raw k (omega arith) in
          ((same k).0 ∙ leads.0, (same k).1 ∙ leads.1))
        (subst (λ j. (e j).next ≡ end_of_element) z ((same n).0 ∙ (closed_end n raw).0))
        (subst (λ j. (e j).free ≡ true) z ((same n).1 ∙ (closed_end n raw).1))
    where
      z : n ≡ 0 + n
      z = omega arith

  -- `init` of a set that is not ready, with memory for at least one and fewer than UINT_MAX slots, whatever
  -- lies in it and with an `init_proc` or none, succeeds; all slots are free then and are taken in order.
  pub init-Holds :
      (slots : ℕ) (init_proc : Option (T → T)) (raw : ℕ → Element T) (s : ElementSet T)
      → s.ready ≡ false
      → 0 < slots
      → slots < uint_max
      → let r = init slots init_proc (some raw) s in (r.0 ≡ true) × Holds r.1 (range slots 0) []
  unfolding init
  init-Holds slots init_proc raw s idle lo hi = rw accepted (
    refl,
    record {
      ready = refl;
      small = hi;
      frees = subst (λ j. FreeSeg made 0 (range j 0)) same (free_all init_proc);
      last =
          subst (λ j. slots - 1 ≡ last_of end_of_element (range j 0)) same
            (omega (arith, last_of-range end_of_element (slots - 1) 0));
      useds = refl;
      parted = λ a. ground (arith, count-range a slots 0);
    },
  )
    where
      accepted : (s.ready || (slots == 0 || slots == uint_max)) ≡ false
      accepted = ground (arith, idle)

      same : suc (slots - 1) ≡ slots
      same = omega arith

      made : ℕ → Element T
      made = elim init_proc [
        | none ↦ closed (slots - 1) raw
        | some f ↦ init_slots slots 0 f (closed (slots - 1) raw)
      ]

      free_all :
          (o : Option (T → T))
          → FreeSeg
              (elim o as (λ _. ℕ → Element T) [
                | none ↦ closed (slots - 1) raw
                | some f ↦ init_slots slots 0 f (closed (slots - 1) raw)
              ])
              0
              (range (suc (slots - 1)) 0)
      free_all none =
          made-FreeSeg (slots - 1) raw (closed (slots - 1) raw) (omega arith) (λ k. (refl, refl))
      free_all (some f) =
          made-FreeSeg (slots - 1) raw (init_slots slots 0 f (closed (slots - 1) raw)) (omega arith)
            (λ k. init_slots-same slots 0 f (closed (slots - 1) raw) k)

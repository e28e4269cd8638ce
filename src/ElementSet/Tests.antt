-- ===== src/ElementSet/Tests.antt =====
-- Tests and witnesses for element_set.h.
use functions.Base.{ℕ, ◌+◌, ◌≡◌, refl, true, false, some, [], ◌∷◌, ◌==◌, if◌then◌else◌, arith}
use functions.ElementSet.{ElementSet, end_of_element, init, get_elem, put_elem}
use functions.ElementSet.Give.{GivenBy, put_elem-Given}
use functions.ElementSet.Init.{range, init-Holds}
use functions.ElementSet.Refine.{Holds, Taken, get_elem-Taken}

-- Two slots, both free.
abbrev two_slots : ElementSet ℕ
two_slots = record {
  ready = true;
  elements = λ i. record {
    content = 0;
    prev = 0;
    next = if i == 0 then 1 else end_of_element;
    free = true;
  };
  element_count = 2;
  first_free = 0;
  last_free = 1;
  first_used = end_of_element;
}

two_slots-Holds : Holds two_slots (0 ∷ 1 ∷ []) []
two_slots-Holds = record {
  ready = refl;
  small = omega arith;
  frees = ground arith;
  last = refl;
  useds = refl;
  parted = λ a. ground arith;
}

get_elem-Taken_example : Taken two_slots (0 ∷ 1 ∷ []) [] (get_elem two_slots)
get_elem-Taken_example = get_elem-Taken two_slots (0 ∷ 1 ∷ []) [] two_slots-Holds

-- The same slots, of which the first is used.
abbrev one_used : ElementSet ℕ
one_used = record {
  ready = true;
  elements = λ i. record {
    content = 0;
    prev = end_of_element;
    next = end_of_element;
    free = if i == 0 then false else true;
  };
  element_count = 2;
  first_free = 1;
  last_free = 1;
  first_used = 0;
}

one_used-Holds : Holds one_used (1 ∷ []) (0 ∷ [])
one_used-Holds = record {
  ready = refl;
  small = omega arith;
  frees = ground arith;
  last = refl;
  useds = ground arith;
  parted = λ a. ground arith;
}

put_elem-Given_example : GivenBy one_used 0 (1 ∷ []) (0 ∷ []) one_used-Holds 1 (put_elem 0 one_used)
put_elem-Given_example = put_elem-Given one_used 0 (1 ∷ []) (0 ∷ []) one_used-Holds

abbrev unready : ElementSet ℕ
unready = record two_slots { ready = false }

init-Holds_example :
    let r = init 3 (some (λ x. x + 1)) (some two_slots.elements) unready in
    (r.0 ≡ true) × Holds r.1 (range 3 0) []
init-Holds_example =
    init-Holds 3 (some (λ x. x + 1)) two_slots.elements unready refl (omega arith) (omega arith)

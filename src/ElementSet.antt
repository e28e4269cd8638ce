-- ===== src/ElementSet.antt =====
-- redis-pool/src/element_set.h: a pool of slots in one array. The free slots form a queue through
-- `next`, the used ones a list through `next` and `prev`. The array is a function of the subscript;
-- `Refine` shows that the operations stay inside its `element_count` slots.
pub mod Chains
pub mod Refine
pub mod Unlink
pub mod Enqueue
pub mod Give
pub mod Init
mod Tests
use functions.Base.{
  ℕ, zero, suc, ◌+◌, ◌-◌, Bool, true, false, not, ◌&&◌, ◌||◌, Option, none, some, ltb, leb, ◌==◌,
  if◌then◌else◌, uint_max,
}

-- `END_OF_ELEMENT`
abbrev pub end_of_element : ℕ
end_of_element = uint_max

pub record Element (T : Type 0) : Type 0 where
  pub content : T
  pub prev : ℕ
  pub next : ℕ
  pub free : Bool

-- `ready` is `m_elements != NULL`.
pub record ElementSet (T : Type 0) : Type 0 where
  pub ready : Bool
  pub elements : ℕ → Element T
  pub element_count : ℕ
  pub first_free : ℕ
  pub last_free : ℕ
  pub first_used : ℕ

module _ {T : Type 0} where
  -- A write into the array.
  abbrev pub update : (ℕ → Element T) → ℕ → Element T → ℕ → Element T
  update e i v j = if i == j then v else e j

  abbrev pub set_next : (ℕ → Element T) → ℕ → ℕ → ℕ → Element T
  set_next e i n = update e i (record (e i) { next = n })

  abbrev pub set_prev : (ℕ → Element T) → ℕ → ℕ → ℕ → Element T
  set_prev e i p = update e i (record (e i) { prev = p })

  abbrev pub set_free : (ℕ → Element T) → ℕ → Bool → ℕ → Element T
  set_free e i f = update e i (record (e i) { free = f })

  -- `for (i = 0; i < element_count - 1; ++ i)`: `n` rounds are left.
  link_slots : ℕ → ℕ → (ℕ → Element T) → ℕ → Element T
  link_slots zero i e = e
  link_slots (suc n) i e = link_slots n (i + 1) (set_free (set_next e i (i + 1)) i true)

  -- The loop that calls `init_proc` on each slot.
  init_slots : ℕ → ℕ → (T → T) → (ℕ → Element T) → ℕ → Element T
  init_slots zero i f e = e
  init_slots (suc n) i f e =
      init_slots n (i + 1) f (update e i (record (e i) { content = f (e i).content }))

  -- `init`. `memory` is what `malloc` returns: nothing, or slots with any content.
  pub init : ℕ → Option (T → T) → Option (ℕ → Element T) → ElementSet T → Bool × ElementSet T
  unfolding link_slots init_slots
  init count init_proc memory s =
      if s.ready || (count == 0 || count == uint_max) then (false, s) else elim memory [
        | none ↦ (false, s)
        | some raw ↦
            let linked =
              set_free (set_next (link_slots (count - 1) 0 raw) (count - 1) end_of_element)
                (count - 1) true in
            let made : ℕ → Element T = elim init_proc [
              | none ↦ linked
              | some f ↦ init_slots count 0 f linked
            ] in
            (
              true,
              record {
                ready = true;
                elements = made;
                element_count = count;
                first_free = 0;
                last_free = count - 1;
                first_used = end_of_element;
              },
            )
      ]

  -- `uninit` with no `uninit_proc`.
  pub uninit : ElementSet T → ElementSet T
  uninit s = record s { ready = false }

  pub is_valid_subscript : ElementSet T → ℕ → Bool
  is_valid_subscript s i = s.ready && (ltb i s.element_count && not (s.elements i).free)

  -- The part of `put_elem` that takes the slot out of the used list.
  unlink : ℕ → ElementSet T → ElementSet T
  unlink i s =
      let p = (s.elements i).prev in
      let e1 =
        if p == end_of_element then s.elements else set_next s.elements p (s.elements i).next in
      let n = (e1 i).next in
      let e2 = if n == end_of_element then e1 else set_prev e1 n (e1 i).prev in
      record s {
        elements = e2;
        first_used = if s.first_used == i then (e2 i).next else s.first_used;
      }

  -- The part of `put_elem` that puts it at the end of the free queue.
  enqueue : ℕ → ElementSet T → ElementSet T
  enqueue i s =
      let e1 = set_next s.elements i end_of_element in
      let e2 = if s.last_free == end_of_element then e1 else set_next e1 s.last_free i in
      record s {
        elements = set_free e2 i true;
        last_free = i;
        first_free = if s.first_free == end_of_element then i else s.first_free;
      }

  -- Whether the slot was given back.
  pub put_elem : ℕ → ElementSet T → Bool × ElementSet T
  unfolding unlink enqueue
  put_elem i s =
      if not s.ready || (leb s.element_count i || (s.elements i).free)
      then (false, s)
      else (true, enqueue i (unlink i s))

  -- The slot `i`, the head of the free queue, becomes the head of the used list.
  take_first : ℕ → ElementSet T → ElementSet T
  take_first i s =
      let e1 =
        update s.elements i
          (record (s.elements i) { free = false; prev = end_of_element; next = s.first_used }) in
      record s {
        elements = if s.first_used == end_of_element then e1 else set_prev e1 s.first_used i;
        first_free = (s.elements i).next;
        last_free = if s.last_free == i then end_of_element else s.last_free;
        first_used = i;
      }

  -- The slot that was taken, or END_OF_ELEMENT.
  pub get_elem : ElementSet T → ℕ × ElementSet T
  unfolding take_first
  get_elem s =
      if not s.ready || s.first_free == end_of_element
      then (end_of_element, s)
      else (s.first_free, take_first s.first_free s)

  -- `operator []`
  abbrev pub content_at : ElementSet T → ℕ → T
  content_at s i = (s.elements i).content

  abbrev pub set_content : ElementSet T → ℕ → T → ElementSet T
  set_content s i v = record s {
    elements = update s.elements i (record (s.elements i) { content = v });
  }

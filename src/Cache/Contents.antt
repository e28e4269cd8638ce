-- ===== src/Cache/Contents.antt =====
-- cache.cpp: the buffer holds a queue of bytes.
use functions.Base.{
  ℕ, zero, suc, ◌+◌, ◌-◌, ◌^◌, ◌≤◌, ◌<◌, ◌≡◌, refl, sym, ap, ◌∙◌, Bool, true, false, List, [], ◌∷◌,
  ◌++◌, some, arith, length, take, drop, length-append, length-take, length-drop, take_exact,
  drop_all, drop-take, drop-drop, append_assoc, add_u32, sub_u32, uint_max, Option-cases,
  Bool-cases, inl, inr, ltb, leb, ◌==◌,
}
use functions.Cache.{
  Pool, Block, GivesRoom, Cache, write_at, read_at, contents, store, store_behind, store_moved,
  skip, move_to, append,
}

drop-write_at :
    (o i : ℕ) (mem bs : List ℕ)
    → o ≤ i
    → i ≤ length mem
    → drop o (write_at mem i bs) ≡ write_at (drop o mem) (i - o) bs
drop-write_at zero i mem bs h k = ap (λ j. write_at mem j bs) (omega arith)
drop-write_at (suc o) zero mem bs h k = absurd (omega arith)
drop-write_at (suc o) (suc i) [] bs h k = absurd (omega arith)
drop-write_at (suc o) (suc i) (x ∷ mem) bs h k =
    drop-write_at o i mem bs (omega arith) (omega arith)
    ∙ ap (λ j. write_at (drop o mem) j bs) (omega arith)

-- Writing just behind `d` bytes and reading both pieces.
take-write_at :
    (d n : ℕ) (mem bs : List ℕ)
    → d ≤ length mem
    → n ≡ d + length bs
    → take n (write_at mem d bs) ≡ take d mem ++ bs
take-write_at d n mem bs h e =
    ap (take n) (sym (append_assoc (take d mem) bs (drop (length bs) (drop d mem))))
    ∙ take_exact n (take d mem ++ bs) _
        (omega (arith, length-append (take d mem) bs, length-take d mem))

read-write_at :
    (o d i n : ℕ) (mem bs : List ℕ)
    → i ≡ o + d
    → n ≡ d + length bs
    → i ≤ length mem
    → read_at (write_at mem i bs) o n ≡ read_at mem o d ++ bs
read-write_at o d i n mem bs e f h =
    ap (take n) (drop-write_at o i mem bs (omega arith) h)
    ∙ (ap (λ j. take n (write_at (drop o mem) j bs)) (omega arith)
        ∙ take-write_at d n (drop o mem) bs (omega (arith, length-drop o mem)) f)

length-write_at :
    (mem bs : List ℕ) (i : ℕ) → i + length bs ≤ length mem → length (write_at mem i bs) ≡ length mem
length-write_at mem bs i h = omega (
  arith,
  length-append (take i mem) (bs ++ drop (length bs) (drop i mem)),
  length-append bs (drop (length bs) (drop i mem)),
  length-take i mem,
  length-drop i mem,
  length-drop (length bs) (drop i mem),
)

length-read_at : (mem : List ℕ) (o n : ℕ) → o + n ≤ length mem → length (read_at mem o n) ≡ n
length-read_at mem o n h = omega (arith, length-take n (drop o mem), length-drop o mem)

-- The data lie inside the block, at its start if there are none.
pub record IsValid (c : Cache) : Type 0 where
  pub small : c.total_len ≤ 2 ^ 31
  pub room : c.total_len ≤ length c.memory
  pub inside : c.offset + c.data_len ≤ c.total_len
  pub at_start : c.data_len ≡ 0 → c.offset ≡ 0

-- `bs` was appended: they follow the bytes that were held, and the cache stays valid.
abbrev Appended : List ℕ → Cache → Cache → Type 0
Appended bs c c' = (contents c' ≡ contents c ++ bs) × IsValid c'

store_behind-Appended :
    (bs : List ℕ) (c : Cache)
    → IsValid c
    → c.offset + c.data_len + length bs ≤ c.total_len
    → Appended bs c (store_behind bs c)
unfolding store_behind contents
store_behind-Appended bs c v h = (
  read-write_at c.offset c.data_len (c.offset + c.data_len) (add_u32 c.data_len (length bs))
      c.memory bs refl (omega (arith, v.small)) (omega (arith, v.room)),
  record {
    small = v.small;
    room = omega (arith, v.room, length-write_at c.memory bs (c.offset + c.data_len));
    inside = omega (arith, v.small);
    at_start = λ e. v.at_start (omega (arith, v.small));
  },
)

store_moved-Appended :
    (bs : List ℕ) (c : Cache)
    → IsValid c
    → c.data_len + length bs ≤ c.total_len
    → Appended bs c (store_moved bs c)
unfolding store_moved contents
store_moved-Appended bs c v h = (
  read-write_at 0 c.data_len c.data_len (add_u32 c.data_len (length bs)) moved bs (omega arith)
        (omega (arith, v.small)) (omega (arith, same, v.room))
      ∙ ap (λ xs. xs ++ bs) front,
  record {
    small = v.small;
    room = omega (arith, v.room, same, length-write_at moved bs c.data_len);
    inside = omega (arith, v.small);
    at_start = λ e. refl;
  },
)
  where
    held : List ℕ
    held = read_at c.memory c.offset c.data_len

    moved : List ℕ
    moved = write_at c.memory 0 held

    held_length : length held ≡ c.data_len
    held_length = length-read_at c.memory c.offset c.data_len (omega (arith, v.room, v.inside))

    same : length moved ≡ length c.memory
    same = length-write_at c.memory held 0 (omega (arith, held_length, v.room, v.inside))

    front : take c.data_len moved ≡ held
    front = take_exact c.data_len held _ (sym held_length)

store-Appended :
    (bs : List ℕ) (c : Cache)
    → IsValid c
    → c.data_len + length bs ≤ c.total_len
    → Appended bs c (store bs c)
unfolding store
store-Appended bs c v h =
    elim (Bool-cases (leb (add_u32 (add_u32 c.offset c.data_len) (length bs)) c.total_len)) [
      | inl t ↦
          rw (t, Appended)
            (store_behind-Appended bs c v (ground (arith, v.small, v.inside, v.at_start)))
      | inr f ↦ rw (f, Appended) (store_moved-Appended bs c v h)
    ]

read_none : (mem : List ℕ) (o n : ℕ) → n ≡ 0 → read_at mem o n ≡ []
read_none mem o n e = rw e

-- The move to a new block keeps the bytes.
move_to-same :
    (p : Pool) (b : Block) (c : Cache) (m : p.State)
    → IsValid c
    → c.data_len ≤ b.actual_size
    → b.actual_size ≤ 2 ^ 31
    → b.actual_size ≤ length b.memory
    → (contents (move_to p b c m).0 ≡ contents c) × IsValid (move_to p b c m).0
unfolding move_to contents
move_to-same p b c m v h k l = elim (Bool-cases (c.total_len == 0)) [
  | inl t ↦ rw (t, contents) (nothing (ground (arith, v.inside)), ground (arith, v.inside))
  | inr f ↦ elim (Bool-cases (c.data_len == 0)) [
    | inl t ↦ rw (f, t, contents) (nothing (ground arith), ground arith)
    | inr g ↦
        rw (f, g, contents)
          (
            take_exact c.data_len held _ (sym held_length),
            record {
              small = k;
              room = omega (arith, l, h, held_length, length-write_at b.memory held 0);
              inside = omega arith;
              at_start = λ e. refl;
            },
          )
  ]
]
  where
    held : List ℕ
    held = read_at c.memory c.offset c.data_len

    held_length : length held ≡ c.data_len
    held_length = length-read_at c.memory c.offset c.data_len (omega (arith, v.room, v.inside))

    nothing : c.data_len ≡ 0 → read_at b.memory 0 c.data_len ≡ held
    nothing e = read_none b.memory 0 c.data_len e ∙ sym (read_none c.memory c.offset c.data_len e)

pub contents_none : (c : Cache) → c.data_len ≡ 0 → contents c ≡ []
unfolding contents
contents_none c e = read_none c.memory c.offset c.data_len e

-- The cache holds as many bytes as it says.
pub length-contents : (c : Cache) → IsValid c → length (contents c) ≡ c.data_len
unfolding contents
length-contents c v = length-read_at c.memory c.offset c.data_len (omega (arith, v.room, v.inside))

-- Skipping fewer than `2 ^ 32` bytes of a valid cache drops that many from the front, all of them if
-- there are fewer, and the cache stays valid.
pub skip-contents :
    (p : Pool) (n : ℕ) (c : Cache) (m : p.State)
    → IsValid c
    → n < 2 ^ 32
    → (contents (skip p n c m).0 ≡ drop n (contents c)) × IsValid (skip p n c m).0
unfolding skip contents
skip-contents p n c m v h = elim (Bool-cases (c.total_len == 0)) [
  | inl t ↦ rw t (
    sym (
        drop_all n held (ground (arith, held_length, v.inside))
        ∙ sym (read_none c.memory c.offset c.data_len (ground (arith, v.inside)))),
    v,
  )
  | inr f ↦ elim (Bool-cases (leb c.data_len n)) [
    | inl t ↦ rw (f, t) (sym (drop_all n held (ground (arith, held_length))), ground arith)
    | inr g ↦ rw (f, g) (rest (ground arith), ground arith)
  ]
]
  where
    held : List ℕ
    held = read_at c.memory c.offset c.data_len

    held_length : length held ≡ c.data_len
    held_length = length-read_at c.memory c.offset c.data_len (omega (arith, v.room, v.inside))

    rest :
        n < c.data_len → read_at c.memory (add_u32 c.offset n) (sub_u32 c.data_len n) ≡ drop n held
    rest lt =
        ap (λ j. read_at c.memory j (sub_u32 c.data_len n)) {y = c.offset + n}
          (omega (arith, v.small, v.inside))
        ∙ (ap (λ j. take j (drop (c.offset + n) c.memory)) {y = c.data_len - n}
              (omega (arith, v.small, v.inside))
            ∙ sym (
                drop-take n c.data_len (drop c.offset c.memory)
                ∙ ap (take (c.data_len - n)) (drop-drop n c.offset c.memory)))

-- What `append` makes of the cache, by whether it succeeded.
abbrev pub Result : List ℕ → Cache → Bool → Cache → Type 0
Result bs c true c' = (contents c' ≡ contents c ++ bs) × IsValid c'
Result bs c false c' = c' ≡ c

-- A new block: the data move, then the bytes are stored behind them.
stored-Result :
    (p : Pool) (b : Block) (bs : List ℕ) (c : Cache) (m : p.State)
    → IsValid c
    → c.data_len + length bs ≤ b.actual_size
    → b.actual_size ≤ 2 ^ 31
    → b.actual_size ≤ length b.memory
    → Appended bs c (store bs (move_to p b c m).0)
unfolding move_to
stored-Result p b bs c m v h k l =
    let moved : Appended bs (move_to p b c m).0 (store bs (move_to p b c m).0) =
      store-Appended bs (move_to p b c m).0 same.1 h in
    (moved.0 ∙ ap (λ xs. xs ++ bs) same.0, moved.1)
  where
    same : (contents (move_to p b c m).0 ≡ contents c) × IsValid (move_to p b c m).0
    same = move_to-same p b c m v (omega arith) k l

-- On a valid cache, for fewer than `2 ^ 32` bytes and a memory pool that gives the room asked for:
-- where `append` succeeds, the cache holds the bytes behind those that it held and stays valid; where it
-- fails, the cache is as it was.
pub append-Result :
    (p : Pool) (g : GivesRoom p) (bs : List ℕ) (c : Cache) (m : p.State)
    → IsValid c
    → length bs < 2 ^ 32
    → let r = append p bs c m in Result bs c r.0 r.1
unfolding append
append-Result p g bs c m v h = elim (Bool-cases (ltb (sub_u32 uint_max (length bs)) c.data_len)) [
  | inl t ↦ rw (t, Result) refl
  | inr f ↦ elim (Bool-cases (ltb c.total_len (add_u32 c.data_len (length bs)))) [
    | inl t ↦ elim (Option-cases (p.alloc (add_u32 c.data_len (length bs)) m).0) [
      | inl e ↦ rw (f, t, e, Result) refl
      | inr q ↦ rw (f, t, q.1, Result) (grown (ground (arith, v.small)) q.0 q.1)
    ]
    | inr n ↦ rw (f, n, Result) (store-Appended bs c v (ground (arith, v.small)))
  ]
]
  where
    grown :
        c.data_len + length bs < 2 ^ 32
        → (b : Block) → (p.alloc (add_u32 c.data_len (length bs)) m).0 ≡ some b
        → Appended bs c (store bs (move_to p b c (p.alloc (add_u32 c.data_len (length bs)) m).1).0)
    grown lt b e =
        let r = g.room (add_u32 c.data_len (length bs)) m b e in
        stored-Result p b bs c _ v (omega (arith, r.0, lt)) r.1 r.2

-- ===== src/Queue/Enqueue.antt =====
-- queue.cpp: `enqueue` by one thread alone, against a list of packets.
use functions.Base.{
  ℕ, ◌+◌, ◌-◌, ◌*◌, ◌/◌, ◌^◌, ◌≤◌, ◌<◌, ◌≡◌, refl, ap, ◌∙◌, Bool-cases, true, false, inl, inr, ltb,
  leb, ◌==◌, ◌||◌, if◌then◌else◌, List, [], ◌∷◌, ◌++◌, arith, length, Option, some,
}
use functions.Base.Int.{ℤ, pos, negsuc}
use functions.Queue.{
  Queue, actual_len, add_u64, fill, sum_len, has_room, reserve, publish, enqueue, enqueue_len,
}
use functions.Queue.Ring.{ring_write, ring_read-ring_write}
use functions.Queue.Copy.{concat}
use functions.Queue.Packets.{IsSize-bounds, Fits, encode, fill_lem, actual_len_lem}
use functions.Queue.Segments.{
  used, Holds, length-encode, Segment-used, Segment-aligned, Segment-write, Segment-append,
  sum_len_lem,
}

-- What `enqueue` promises: -2 for no bytes or too many, -1 where the ring has no room.
unfoldable pub offer : ℕ → List ℕ → List (List ℕ) → ℤ × List (List ℕ)
offer size b bs =
    if (length b == 0) || ltb (2 ^ 30) (length b)
    then (negsuc 1, bs)
    else if leb (used bs + actual_len (length b)) size
    then (pos 0, bs ++ b ∷ [])
    else (negsuc 0, bs)

-- A call in the state `q` returned `r`, and left a state that holds `bs`, with fewer than 2 ^ 31 bytes more.
abbrev pub Returns : {R : Type 0} → Queue → Option (R × Queue) → R → List (List ℕ) → Type 0
Returns q call r bs =
    (q' : Queue) × (call ≡ some (r, q'))
    × Holds q' bs
    × (q'.size ≡ q.size)
    × (q'.enqueue_pos ≤ q.enqueue_pos + 2 ^ 31)

pub ==_self : (n : ℕ) → (n == n) ≡ true
==_self n = ground arith

-- In 64 bits the test is the one it means to be.
pub has_room_lem :
    (need s e d : ℕ)
    → d ≤ e
    → e < 2 ^ 64
    → e ≤ d + s
    → s ≤ 2 ^ 31
    → has_room need s e d ≡ leb (e - d + need) s
unfolding has_room
has_room_lem need s e d h w l k = ground arith

room-leb :
    (pieces : List (List ℕ)) (q : Queue) (bs : List (List ℕ))
    → Holds q bs
    → has_room (actual_len (length (concat pieces))) q.size q.pre_enqueue_pos q.dequeue_pos
      ≡ leb (used bs + actual_len (length (concat pieces))) q.size
room-leb pieces q bs h =
    let end = Segment-used q.memory q.size q.dequeue_pos bs q.enqueue_pos h.segment in
    let need = actual_len (length (concat pieces)) in
    ap (λ e. has_room need q.size e q.dequeue_pos) h.none_enqueues
    ∙ (has_room_lem need q.size q.enqueue_pos q.dequeue_pos (omega (arith, end)) h.no_wrap h.within
          (omega (arith, IsSize-bounds q.size h.is_size))
        ∙ ap (λ u. leb (u + need) q.size) (omega (arith, end)))

-- The queue with a packet more.
abbrev appended : List (List ℕ) → Queue → Queue
appended pieces q =
    let end = q.enqueue_pos + actual_len (length (concat pieces)) in
    record q {
      memory = ring_write q.size q.enqueue_pos (encode (concat pieces)) q.memory;
      enqueue_pos = end;
      pre_enqueue_pos = end;
      calls = if q.on_enqueued then q.calls + 1 else q.calls;
    }

pub fill_record :
    (p : ℕ) (pieces : List (List ℕ)) (q : Queue)
    → Fits q.size p (concat pieces)
    → fill p pieces (length (concat pieces)) q
      ≡ record q { memory = ring_write q.size p (encode (concat pieces)) q.memory }
unfolding fill
fill_record p pieces q f = ap (λ m. record q { memory = m }) (fill_lem p pieces q f)

enqueue_len_lem :
    (pieces : List (List ℕ)) (q : Queue) (bs : List (List ℕ))
    → Holds q bs
    → Fits q.size q.enqueue_pos (concat pieces)
    → used bs + actual_len (length (concat pieces)) ≤ q.size
    → enqueue_len pieces (length (concat pieces)) q ≡ some (pos 0, appended pieces q)
unfolding enqueue_len reserve publish
enqueue_len_lem pieces q bs h f r =
    let room : leb (used bs + actual_len (length (concat pieces))) q.size ≡ true = ground arith in
    let sum : add_u64 q.enqueue_pos (actual_len (length (concat pieces)))
        ≡ q.enqueue_pos + actual_len (length (concat pieces)) =
      omega (arith, f.no_wrap) in
    rw (room-leb pieces q bs h ∙ room, ==_self q.pre_enqueue_pos, h.none_enqueues)
      (rw (
        sum,
        fill_record q.enqueue_pos pieces
            (record q { pre_enqueue_pos = q.enqueue_pos + actual_len (length (concat pieces)) }) f,
        ==_self q.enqueue_pos,
      ))

enqueue_len_full :
    (pieces : List (List ℕ)) (q : Queue) (bs : List (List ℕ))
    → Holds q bs
    → q.size < used bs + actual_len (length (concat pieces))
    → enqueue_len pieces (length (concat pieces)) q ≡ some (negsuc 0, q)
unfolding enqueue_len
enqueue_len_full pieces q bs h r =
    let full : leb (used bs + actual_len (length (concat pieces))) q.size ≡ false = ground arith in
    rw (room-leb pieces q bs h ∙ full)

appended-Holds :
    (pieces : List (List ℕ)) (q : Queue) (bs : List (List ℕ))
    → Holds q bs
    → Fits q.size q.enqueue_pos (concat pieces)
    → 0 < length (concat pieces)
    → used bs + actual_len (length (concat pieces)) ≤ q.size
    → Holds (appended pieces q) (bs ++ concat pieces ∷ [])
appended-Holds pieces q bs h f z r = record {
  is_size = h.is_size;
  aligned = h.aligned;
  none_enqueues = refl;
  none_dequeues = h.none_dequeues;
  no_wrap = f.no_wrap;
  within = omega (arith, end);
  segment =
      Segment-append (ring_write q.size q.enqueue_pos (encode b) q.memory) q.size q.dequeue_pos bs
        q.enqueue_pos b
        (Segment-write q.memory q.size q.dequeue_pos bs q.enqueue_pos (encode b)
          (omega (arith, end, l, length-encode b)) h.segment)
        (ring_read-ring_write q.size (encode b) q.enqueue_pos q.memory
          (omega (arith, l, f.in_ring, length-encode b)))
        z f.short;
}
  where
    b : List ℕ
    b = concat pieces

    end : q.enqueue_pos ≡ q.dequeue_pos + used bs
    end = Segment-used q.memory q.size q.dequeue_pos bs q.enqueue_pos h.segment

    l : actual_len (length b) ≡ (length b + 7) / 8 * 8 + 8
    l = actual_len_lem (length b) f.short

enqueue_refused :
    (pieces : List (List ℕ)) (q : Queue)
    → ((length (concat pieces) == 0) || ltb (2 ^ 30) (length (concat pieces))) ≡ true
    → enqueue pieces q ≡ some (negsuc 1, q)
unfolding enqueue
enqueue_refused pieces q bad = ground (arith, sum_len_lem 0 pieces)

enqueue_taken :
    (pieces : List (List ℕ)) (q : Queue)
    → ((length (concat pieces) == 0) || ltb (2 ^ 30) (length (concat pieces))) ≡ false
    → enqueue pieces q ≡ enqueue_len pieces (length (concat pieces)) q
unfolding enqueue
enqueue_taken pieces q good =
    let e : sum_len 0 pieces ≡ some (length (concat pieces)) =
      ground (arith, sum_len_lem 0 pieces) in
    rw (e, enqueue) (ground arith)

-- The call, and what `offer` promises.
pub enqueue-Returns :
    (pieces : List (List ℕ)) (q : Queue) (bs : List (List ℕ))
    → Holds q bs
    → q.enqueue_pos + 2 ^ 31 ≤ 2 ^ 64
    → Returns q
        (enqueue pieces q)
        (offer q.size (concat pieces) bs).0
        (offer q.size (concat pieces) bs).1
unfolding enqueue offer
enqueue-Returns pieces q bs h w = elim (Bool-cases ((length b == 0) || ltb (2 ^ 30) (length b))) [
  | inl bad ↦ rw bad (q, enqueue_refused pieces q bad, h, refl, omega arith)
  | inr good ↦ rw good (elim (Bool-cases (leb (used bs + actual_len (length b)) q.size)) [
    | inl room ↦ rw room (
      appended pieces q,
      enqueue_taken pieces q good
          ∙ enqueue_len_lem pieces q bs h (fits good (ground arith)) (ground arith),
      appended-Holds pieces q bs h (fits good (ground arith)) (ground arith) (ground arith),
      refl,
      ground (arith, actual_len_lem (length b)),
    )
    | inr full ↦ rw full (
      q,
      enqueue_taken pieces q good ∙ enqueue_len_full pieces q bs h (ground arith),
      h,
      refl,
      omega arith,
    )
  ])
]
  where
    b : List ℕ
    b = concat pieces

    fits :
        ((length b == 0) || ltb (2 ^ 30) (length b)) ≡ false
        → used bs + actual_len (length b) ≤ q.size
        → Fits q.size q.enqueue_pos b
    fits good room = record {
      is_size = h.is_size;
      aligned = Segment-aligned q.memory q.size q.dequeue_pos bs q.enqueue_pos h.aligned h.segment;
      short = ground arith;
      in_ring = omega arith;
      no_wrap = ground (arith, actual_len_lem (length b));
    }

-- ===== src/Queue/Threads.antt =====
-- queue.cpp: any number of threads that call `enqueue` and `dequeue` at the same time. A step of a
-- thread reads one of the positions, makes one compare-and-swap, or copies a packet; while it copies, what
-- lies in the packet's part of the ring is left open.
pub mod Defs
pub mod Frames
pub mod Reserving
pub mod Puts
pub mod Gets
pub mod Retiring
pub mod Invariant
pub mod Order
pub mod Covered
pub mod Progress
use functions.Base.{
  ℕ, ◌+◌, ◌%◌, ◌^◌, ◌≤◌, ◌<◌, ◌≡◌, ◌≢◌, ◌⊎◌, Bool, true, false, List, [], ◌∷◌, ◌++◌, Option, none,
  some, length, ◌==◌, if◌then◌else◌,
}
use functions.Queue.{
  Memory, Queue, actual_len, actual_pos, has_room, reserve, fill, publish, claim, extract, retire,
  len_at,
}
use functions.Queue.Copy.{concat}
use functions.Queue.History.{IsPacket}

-- Where a thread stands, with the local variables that are live there. The packet of `pieces` is their
-- bytes one behind the other.
pub data Pc : Type 0 where
  idle : Pc
  wants : (pieces : List (List ℕ)) → Pc  -- the head of the loop of `enqueue`
  loaded : (pieces : List (List ℕ)) (p : ℕ) → Pc  -- `enqueue_pos = m_pre_enqueue_pos`
  checked : (pieces : List (List ℕ)) (p : ℕ) → Pc  -- before the compare-and-swap
  reserved : (pieces : List (List ℕ)) (p : ℕ) → Pc  -- "fill memory"
  filled : (pieces : List (List ℕ)) (p : ℕ) → Pc  -- the loop on `m_enqueue_pos`
  seeks : Pc  -- the head of the loop of `dequeue`
  found : (p : ℕ) → Pc  -- `dequeue_pos = m_pre_dequeue_pos`
  present : (p : ℕ) → Pc  -- past the test for an empty queue
  sized : (p len : ℕ) → Pc  -- `hdr` is read, before the compare-and-swap
  claimed : (p len : ℕ) → Pc  -- "read memory"
  copied : (p len : ℕ) (bytes : List ℕ) → Pc  -- the loop on `m_dequeue_pos`
  skipped : (p len : ℕ) → Pc  -- the same, where `malloc` failed

-- `sent` and `received` record the packets in the order in which the loops of `enqueue` and of `dequeue`
-- were left; the code does not have them.
pub record Shared : Type 0 where
  pub queue : Queue
  pub sent : List (List ℕ)
  pub received : List (List ℕ)

-- The places of a packet at `p`.
abbrev pub Outside : ℕ → ℕ → List ℕ → ℕ → Type 0
Outside s p b j = (k : ℕ) → k < actual_len (length b) → j ≢ (p + k) % s

-- One step of one thread. The positions are taken not to pass 2 ^ 64.
pub data Move (s : Shared) : Pc → Shared → Pc → Type 0 where
  call_enqueue : {v : List (List ℕ)} → IsPacket (concat v) → Move s idle s (wants v)
  loads : {v : List (List ℕ)} → Move s (wants v) s (loaded v s.queue.pre_enqueue_pos)
  full :
      {v : List (List ℕ)} {p : ℕ}
      → has_room (actual_len (length (concat v))) s.queue.size p s.queue.dequeue_pos ≡ false
      → Move s (loaded v p) s idle
  room :
      {v : List (List ℕ)} {p : ℕ}
      → has_room (actual_len (length (concat v))) s.queue.size p s.queue.dequeue_pos ≡ true
      → Move s (loaded v p) s (checked v p)
  reserve_lost :
      {v : List (List ℕ)} {p : ℕ}
      → reserve p (actual_len (length (concat v))) s.queue ≡ none
      → Move s (checked v p) s (wants v)
  reserve_won :
      {v : List (List ℕ)} {p : ℕ} {q : Queue}
      → reserve p (actual_len (length (concat v))) s.queue ≡ some q
      → p + actual_len (length (concat v)) < 2 ^ 64
      → Move s (checked v p) (record s { queue = q; sent = s.sent ++ concat v ∷ [] }) (reserved v p)
  copying :
      {v : List (List ℕ)} {p : ℕ} {m : Memory}
      → ((j : ℕ) → Outside s.queue.size p (concat v) j → m j ≡ s.queue.memory j)
      → Move s (reserved v p) (record s { queue = record s.queue { memory = m } }) (reserved v p)
  fills :
      {v : List (List ℕ)} {p : ℕ}
      → Move s
          (reserved v p)
          (record s { queue = fill p v (length (concat v)) s.queue })
          (filled v p)
  publish_waits :
      {v : List (List ℕ)} {p : ℕ}
      → publish p (actual_len (length (concat v))) s.queue ≡ none
      → Move s (filled v p) s (filled v p)
  publishes :
      {v : List (List ℕ)} {p : ℕ} {q : Queue}
      → publish p (actual_len (length (concat v))) s.queue ≡ some q
      → Move s (filled v p) (record s { queue = q }) idle
  call_dequeue : Move s idle s seeks
  find : Move s seeks s (found s.queue.pre_dequeue_pos)
  sees_none : {p : ℕ} → (p == s.queue.enqueue_pos) ≡ true → Move s (found p) s idle
  sees_some : {p : ℕ} → (p == s.queue.enqueue_pos) ≡ false → Move s (found p) s (present p)
  reads_len :
      {p : ℕ} → Move s (present p) s (sized p (len_at (actual_pos p s.queue.size) s.queue.memory))
  claim_lost : {p len : ℕ} → claim p (actual_len len) s.queue ≡ none → Move s (sized p len) s seeks
  claim_won :
      {p len : ℕ} {q : Queue}
      → claim p (actual_len len) s.queue ≡ some q
      → Move s
          (sized p len)
          (record s { queue = q; received = s.received ++ extract p len s.queue ∷ [] })
          (claimed p len)
  copies : {p len : ℕ} → Move s (claimed p len) s (copied p len (extract p len s.queue))
  no_memory : {p len : ℕ} → Move s (claimed p len) s (skipped p len)
  retire_waits :
      {p len : ℕ} {b : List ℕ}
      → retire p (actual_len len) s.queue ≡ none
      → Move s (copied p len b) s (copied p len b)
  retires :
      {p len : ℕ} {b : List ℕ} {q : Queue}
      → retire p (actual_len len) s.queue ≡ some q
      → Move s (copied p len b) (record s { queue = q }) idle
  retire_skipped :
      {p len : ℕ} {q : Queue}
      → retire p (actual_len len) s.queue ≡ some q
      → Move s (skipped p len) (record s { queue = q }) idle

abbrev pub stand_at : (ℕ → Pc) → ℕ → Pc → ℕ → Pc
stand_at f i a j = if i == j then a else f j

pub record System : Type 0 where
  pub shared : Shared
  pub pc : ℕ → Pc

pub data Step (s : System) : System → Type 0 where
  pick :
      (i : ℕ) {t : Shared} {p : Pc}
      → Move s.shared (s.pc i) t p
      → Step s (record { shared = t; pc = stand_at s.pc i p })

-- From the queue that `init` leaves, with every thread outside it.
abbrev pub at_start : Queue → System
at_start q = record { shared = record { queue = q; sent = []; received = [] }; pc = λ _. Pc.idle }

pub data Reach (q : Queue) : System → Type 0 where
  start : Reach q (at_start q)
  later : {s t : System} → Reach q s → Step s t → Reach q t

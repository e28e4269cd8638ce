-- ===== src/Queue/Threads/Defs.antt =====
-- queue.cpp: what holds between the steps of the threads.
use functions.Base.{
  ℕ, ◌+◌, ◌^◌, ◌≤◌, ◌<◌, ◌≡◌, ◌≢◌, ◌⊎◌, inl, inr, List, ◌++◌, Option, none, some, length,
}
use mathlib.Core.Path.{subst}
use functions.Queue.{Queue, actual_len}
use functions.Queue.Ring.{ring_read}
use functions.Queue.Copy.{concat}
use functions.Queue.Packets.{IsSize, encode}
use functions.Queue.Segments.{used}
use functions.Queue.History.{IsPacket, ArePackets, At}
use functions.Queue.Threads.{
  Pc, idle, wants, loaded, checked, reserved, filled, seeks, found, present, sized, claimed, copied,
  skipped, Shared, System,
}

-- The whole packet lies in the ring.
abbrev pub InRing : Queue → ℕ → List ℕ → Type 0
InRing q p b = ring_read q.size p (length (encode b)) q.memory ≡ encode b

-- The position of a packet that a thread has to itself.
abbrev pub owns : Pc → Option ℕ
owns (reserved v p) = some p
owns (filled v p) = some p
owns (claimed p len) = some p
owns (copied p len b) = some p
owns (skipped p len) = some p
owns _ = none

-- The packet at `p` has `len` bytes.
abbrev pub HasLen : Shared → ℕ → ℕ → Type 0
HasLen s p len = (b : List ℕ) × At s.sent 0 p b × (len ≡ length b)

-- A packet that was claimed and is not retired.
abbrev pub IsOut : Shared → ℕ → Type 0
IsOut s p = (s.queue.dequeue_pos ≤ p) × (p < s.queue.pre_dequeue_pos)

-- What a thread knows.
abbrev pub Local : Shared → Pc → Type 0
Local s idle = Unit
Local s (wants v) = IsPacket (concat v)
Local s (loaded v p) = IsPacket (concat v) × (p ≤ s.queue.pre_enqueue_pos)
Local s (checked v p) =
    IsPacket (concat v)
    × (p ≤ s.queue.pre_enqueue_pos)
    × (p ≡ s.queue.pre_enqueue_pos
        → p + actual_len (length (concat v)) ≤ s.queue.dequeue_pos + s.queue.size)
Local s (reserved v p) = At s.sent 0 p (concat v) × (s.queue.enqueue_pos ≤ p)
Local s (filled v p) =
    At s.sent 0 p (concat v) × (s.queue.enqueue_pos ≤ p) × InRing s.queue p (concat v)
Local s seeks = Unit
Local s (found p) = p ≤ s.queue.pre_dequeue_pos
Local s (present p) = (p ≤ s.queue.pre_dequeue_pos) × (p < s.queue.enqueue_pos)
Local s (sized p len) =
    (p ≤ s.queue.pre_dequeue_pos)
    × (p < s.queue.enqueue_pos)
    × (p ≡ s.queue.pre_dequeue_pos → HasLen s p len)
Local s (claimed p len) = HasLen s p len × IsOut s p
Local s (copied p len b) = At s.sent 0 p b × (len ≡ length b) × IsOut s p
Local s (skipped p len) = HasLen s p len × IsOut s p

-- What holds of the queue. The packets before `m_enqueue_pos` that are not retired are whole.
pub record Global (s : Shared) : Type 0 where
  pub is_size : IsSize s.queue.size
  pub retired-le : s.queue.dequeue_pos ≤ s.queue.pre_dequeue_pos
  pub claimed-le : s.queue.pre_dequeue_pos ≤ s.queue.enqueue_pos
  pub published-le : s.queue.enqueue_pos ≤ s.queue.pre_enqueue_pos
  pub reserved-le : s.queue.pre_enqueue_pos ≤ s.queue.dequeue_pos + s.queue.size
  pub no_wrap : s.queue.pre_enqueue_pos < 2 ^ 64
  pub end : s.queue.pre_enqueue_pos ≡ used s.sent
  pub packets : ArePackets s.sent
  pub edge :
      (s.queue.enqueue_pos ≡ s.queue.pre_enqueue_pos)
      ⊎ ((b : List ℕ) × At s.sent 0 s.queue.enqueue_pos b)
  pub out_edge :
      (s.queue.dequeue_pos ≡ s.queue.pre_dequeue_pos)
      ⊎ ((b : List ℕ) × At s.sent 0 s.queue.dequeue_pos b)
  pub rest : List (List ℕ)
  pub split : s.sent ≡ s.received ++ rest
  pub next : used s.received ≡ s.queue.pre_dequeue_pos
  pub stored :
      (p : ℕ) (b : List ℕ)
      → At s.sent 0 p b
      → s.queue.dequeue_pos ≤ p
      → p < s.queue.enqueue_pos
      → InRing s.queue p b

pub record Inv (s : System) : Type 0 where
  pub shared : Global s.shared
  pub each : (i : ℕ) → Local s.shared (s.pc i)
  pub alone : (i j p : ℕ) → owns (s.pc i) ≡ some p → owns (s.pc j) ≡ some p → i ≡ j

-- Two threads do not own the same packet.
abbrev pub Differ : Pc → Pc → Type 0
Differ r r' = (p : ℕ) → owns r ≡ some p → owns r' ≢ some p

-- What a move from `s` at `r` to `t` at `r'` keeps.
pub record Kept (s t : Shared) (r r' : Pc) : Type 0 where
  pub shared : Global t
  pub own : Local t r'
  pub others : (o : Pc) → Differ r o → Local s o → Local t o
  pub fresh :
      (p : ℕ) → owns r' ≡ some p → (owns r ≡ some p) ⊎ ((o : Pc) → Local s o → owns o ≢ some p)

abbrev pub Owned : Shared → ℕ → Type 0
Owned s p =
    (b : List ℕ) × At s.sent 0 p b × ((s.queue.enqueue_pos ≤ p) ⊎ (p < s.queue.pre_dequeue_pos))

-- A packet that a thread has to itself is not published yet, or is claimed.
pub owned : (s : Shared) (o : Pc) (p : ℕ) → Local s o → owns o ≡ some p → Owned s p
owned s (reserved v x) p l e =
    let same : x ≡ p = cc in subst (λ y. Owned s y) same (concat v, l.0, inl l.1)
owned s (filled v x) p l e =
    let same : x ≡ p = cc in subst (λ y. Owned s y) same (concat v, l.0, inl l.1)
owned s (claimed x len) p l e =
    let same : x ≡ p = cc in subst (λ y. Owned s y) same (l.0.0, l.0.1, inr l.1.1)
owned s (copied x len b) p l e =
    let same : x ≡ p = cc in subst (λ y. Owned s y) same (b, l.0, inr l.2.1)
owned s (skipped x len) p l e =
    let same : x ≡ p = cc in subst (λ y. Owned s y) same (l.0.0, l.0.1, inr l.1.1)
owned s idle p l e = cc
owned s (wants v) p l e = cc
owned s (loaded v x) p l e = cc
owned s (checked v x) p l e = cc
owned s seeks p l e = cc
owned s (found x) p l e = cc
owned s (present x) p l e = cc
owned s (sized x len) p l e = cc

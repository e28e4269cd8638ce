-- ===== src/Queue/Threads/Puts.antt =====
-- queue.cpp: the steps of `enqueue` behind its first compare-and-swap keep what holds of the queue and what the other threads know.
use functions.Base.{
  ℕ, ◌+◌, ◌≤◌, ◌<◌, ◌≡◌, ◌≢◌, inl, inr, refl, sym, ap, ◌∙◌, List, some, arith, length,
}
use mathlib.Core.Path.{subst}
use native.Mathlib.Decide.{dec_lt}
use functions.Queue.{Memory, Queue, actual_len, fill}
use functions.Queue.Ring.{ring_write, ring_read-ring_write}
use functions.Queue.Copy.{concat}
use functions.Queue.Packets.{encode, Fits, actual_len_lem}
use functions.Queue.Segments.{length-encode}
use functions.Queue.Enqueue.{fill_record}
use functions.Queue.History.{At, At-next, At-bounds, At-IsPacket, At-aligned, At-Apart, cost_bounds}
use functions.Queue.Threads.{
  Pc, idle, wants, loaded, checked, reserved, filled, seeks, found, present, sized, claimed, copied,
  skipped, Shared,
}
use functions.Queue.Threads.Defs.{InRing, Local, Global, Differ, Kept}
use functions.Queue.Threads.Frames.{Agrees, Apart-Agrees, ring_write-Agrees}

module _ (s : Shared) (g : Global s) where
  abbrev pub q : Queue
  q = s.queue

  -- `copying` and `fills`: only the packet's part of the ring changes.
  abbrev pub with_memory : Memory → Shared
  with_memory m = record s { queue = record q { memory = m } }

  module _ (v : List (List ℕ)) (p : ℕ) (l : Local s (reserved v p)) (m : Memory)
      (agrees : Agrees q.size p (actual_len (length (concat v))) q.memory m) where
    elsewhere :
        (i : ℕ) (b : List ℕ)
        → At s.sent 0 i b
        → p ≢ i
        → q.dequeue_pos ≤ i
        → InRing q i b
        → InRing (record q { memory = m }) i b
    elsewhere i b a d lo whole = elim (At-Apart s.sent 0 i p b (concat v) a l.0) [
      | inl same ↦ absurd (d (sym same.0))
      | inr apart ↦
          Apart-Agrees q.size q.dequeue_pos p i (concat v) b q.memory m
            (At-IsPacket s.sent 0 p (concat v) g.packets l.0) (At-IsPacket s.sent 0 i b g.packets a)
            apart (omega (arith, g.retired-le, g.claimed-le, l.1), lo)
            (
              omega (arith, At-bounds s.sent 0 p (concat v) l.0, g.end, g.reserved-le),
              omega (arith, At-bounds s.sent 0 i b a, g.end, g.reserved-le),
            )
            agrees
          ∙ whole
    ]

    memory-others : (o : Pc) → Differ (reserved v p) o → Local s o → Local (with_memory m) o
    memory-others (filled w i) d k = (
      k.0,
      k.1,
      elsewhere i (concat w) k.0 (λ (e : p ≡ i). d p refl (ap some (sym e)))
          (omega (arith, k.1, g.claimed-le, g.retired-le)) k.2,
    )
    memory-others idle d k = k
    memory-others (wants w) d k = k
    memory-others (loaded w i) d k = k
    memory-others (checked w i) d k = k
    memory-others (reserved w i) d k = k
    memory-others seeks d k = k
    memory-others (found i) d k = k
    memory-others (present i) d k = k
    memory-others (sized i len) d k = k
    memory-others (claimed i len) d k = k
    memory-others (copied i len b) d k = k
    memory-others (skipped i len) d k = k

    memory-Global : Global (with_memory m)
    memory-Global = record {
      is_size = g.is_size;
      retired-le = g.retired-le;
      claimed-le = g.claimed-le;
      published-le = g.published-le;
      reserved-le = g.reserved-le;
      no_wrap = g.no_wrap;
      end = g.end;
      packets = g.packets;
      edge = g.edge;
      out_edge = g.out_edge;
      rest = g.rest;
      split = g.split;
      next = g.next;
      stored = λ i b a lo hi.
          elsewhere i b a (λ (e : p ≡ i). omega (arith, l.1)) lo (g.stored i b a lo hi);
    }

    pub copying-Kept : Kept s (with_memory m) (reserved v p) (reserved v p)
    copying-Kept = record {
      shared = memory-Global;
      own = l;
      others = memory-others;
      fresh = λ x e. inl e;
    }

    filled-Kept :
        InRing (record q { memory = m }) p (concat v)
        → Kept s (with_memory m) (reserved v p) (filled v p)
    filled-Kept whole = record {
      shared = memory-Global;
      own = (l.0, l.1, whole);
      others = memory-others;
      fresh = λ x e. inl e;
    }

  reserved-Fits : (v : List (List ℕ)) (p : ℕ) → Local s (reserved v p) → Fits q.size p (concat v)
  reserved-Fits v p l =
      let b = At-bounds s.sent 0 p (concat v) l.0 in
      record {
        is_size = g.is_size;
        aligned = At-aligned s.sent 0 p (concat v) g.packets refl l.0;
        short = (At-IsPacket s.sent 0 p (concat v) g.packets l.0).1;
        in_ring = omega (arith, b, g.end, g.reserved-le, g.retired-le, g.claimed-le, l.1);
        no_wrap = omega (arith, b, g.end, g.no_wrap);
      }

  pub fills-Kept :
      (v : List (List ℕ)) (p : ℕ)
      → Local s (reserved v p)
      → Kept s (record s { queue = fill p v (length (concat v)) q }) (reserved v p) (filled v p)
  fills-Kept v p l =
      let f = reserved-Fits v p l in
      let long = actual_len_lem (length (concat v)) f.short in
      let bytes = encode (concat v) in
      let size = length-encode (concat v) in
      subst (λ x. Kept s (record s { queue = x }) (reserved v p) (filled v p))
        (sym (fill_record p v q f))
        (filled-Kept v p l (ring_write q.size p bytes q.memory)
          (ring_write-Agrees q.size p (actual_len (length (concat v))) bytes q.memory
            (omega (arith, long, size)))
          (ring_read-ring_write q.size bytes p q.memory (omega (arith, long, size, f.in_ring))))

  -- `publishes`
  abbrev pub after_publish : ℕ → ℕ → Shared
  after_publish end calls = record s { queue = record q { enqueue_pos = end; calls = calls } }

  module _ (v : List (List ℕ)) (p calls : ℕ) (l : Local s (filled v p))
      (first : q.enqueue_pos ≡ p) where
    abbrev pub end : ℕ
    end = p + actual_len (length (concat v))

    -- What another thread has reserved lies behind.
    behind : (i : ℕ) (b : List ℕ) → At s.sent 0 i b → p ≢ i → p ≤ i → end ≤ i
    behind i b a d h = elim (At-Apart s.sent 0 p i (concat v) b l.0 a) [
      | inl same ↦ absurd (d same.0)
      | inr (inl after) ↦ after
      | inr (inr before) ↦
          absurd (omega (arith, cost_bounds b (At-IsPacket s.sent 0 i b g.packets a)))
    ]

    publish-others :
        (o : Pc) → Differ (filled v p) o → Local s o → Local (after_publish end calls) o
    publish-others (reserved w i) d k = (
      k.0,
      behind i (concat w) k.0 (λ (e : p ≡ i). d p refl (ap some (sym e))) (omega (arith, k.1)),
    )
    publish-others (filled w i) d k = (
      k.0,
      behind i (concat w) k.0 (λ (e : p ≡ i). d p refl (ap some (sym e))) (omega (arith, k.1)),
      k.2,
    )
    publish-others idle d k = k
    publish-others (wants w) d k = k
    publish-others (loaded w i) d k = k
    publish-others (checked w i) d k = k
    publish-others seeks d k = k
    publish-others (found i) d k = k
    publish-others (present i) d k = (k.0, omega (arith, k.1))
    publish-others (sized i len) d k = (k.0, omega (arith, k.1), k.2)
    publish-others (claimed i len) d k = k
    publish-others (copied i len b) d k = k
    publish-others (skipped i len) d k = k

    published : (i : ℕ) (b : List ℕ) → At s.sent 0 i b → q.dequeue_pos ≤ i → i < end → InRing q i b
    published i b a lo hi = elim (dec_lt i q.enqueue_pos) [
      | yes before ↦ g.stored i b a lo before
      | no late ↦ elim (At-Apart s.sent 0 p i (concat v) b l.0 a) [
        | inl same ↦ subst (λ x. InRing q x b) same.0 (subst (InRing q p) same.1 l.2)
        | inr (inl after) ↦ absurd (omega arith)
        | inr (inr ahead) ↦
            absurd (omega (arith, cost_bounds b (At-IsPacket s.sent 0 i b g.packets a)))
      ]
    ]

    pub publish-Kept : Kept s (after_publish end calls) (filled v p) idle
    publish-Kept = record {
      shared = record {
        is_size = g.is_size;
        retired-le = g.retired-le;
        claimed-le = omega (arith, g.claimed-le);
        published-le = omega (arith, At-bounds s.sent 0 p (concat v) l.0, g.end);
        reserved-le = g.reserved-le;
        no_wrap = g.no_wrap;
        end = g.end;
        packets = g.packets;
        edge = elim (At-next s.sent 0 p (concat v) l.0) [
          | inl last ↦ inl (omega (arith, g.end))
          | inr more ↦ inr more
        ];
        out_edge = g.out_edge;
        rest = g.rest;
        split = g.split;
        next = g.next;
        stored = published;
      };
      own = tt;
      others = publish-others;
      fresh = λ x e. cc;
    }

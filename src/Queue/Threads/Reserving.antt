-- ===== src/Queue/Threads/Reserving.antt =====
-- queue.cpp: the steps of `enqueue` up to its first compare-and-swap keep what holds of the queue and what the other threads know.
use functions.Base.{
  ℕ, ◌+◌, ◌^◌, ◌≤◌, ◌<◌, ◌≡◌, ◌≢◌, inl, inr, sym, ap, ◌∙◌, List, [], ◌∷◌, ◌++◌, some, arith, length,
  true, append_assoc,
}
use mathlib.Core.Path.{subst}
use functions.Queue.{Queue, actual_len, has_room}
use functions.Queue.Copy.{concat}
use functions.Queue.Packets.{IsSize-bounds}
use functions.Queue.Enqueue.{has_room_lem}
use functions.Queue.History.{
  IsPacket, At, At-append, At-middle, At-last, At-bounds, At-IsPacket, cost_bounds,
  ArePackets-append, used-append,
}
use functions.Queue.Threads.{
  Pc, idle, wants, loaded, checked, reserved, filled, seeks, found, present, sized, claimed, copied,
  skipped, Shared,
}
use functions.Queue.Threads.Defs.{owns, Local, Global, owned, Kept}

module _ (s : Shared) (g : Global s) where
  abbrev q : Queue
  q = s.queue

  -- `room`: the test still tells the truth at the compare-and-swap, if that succeeds.
  pub room-Kept :
      (v : List (List ℕ)) (p : ℕ)
      → has_room (actual_len (length (concat v))) q.size p q.dequeue_pos ≡ true
      → Local s (loaded v p)
      → Kept s s (loaded v p) (checked v p)
  room-Kept v p h l = record {
    shared = g;
    own = (
      l.0,
      l.1,
      λ e.
          let d = g.retired-le in
          let test =
            sym (
              has_room_lem (actual_len (length (concat v))) q.size p q.dequeue_pos
                (omega (arith, g.claimed-le, g.published-le)) (omega (arith, g.no_wrap))
                (omega (arith, g.reserved-le)) (omega (arith, IsSize-bounds q.size g.is_size)))
            ∙ h in
          ground (arith, test, g.claimed-le, g.published-le),
    );
    others = λ o d k. k;
    fresh = λ x e. cc;
  }

  -- `reserve_won`
  abbrev pub after_reserve : List (List ℕ) → Shared
  after_reserve v = record s {
    queue = record q { pre_enqueue_pos = q.pre_enqueue_pos + actual_len (length (concat v)) };
    sent = s.sent ++ concat v ∷ [];
  }

  module _ (v : List (List ℕ)) (packet : IsPacket (concat v)) where
    reserve-others : (o : Pc) → Local s o → Local (after_reserve v) o
    reserve-others idle l = tt
    reserve-others (wants w) l = l
    reserve-others (loaded w p) l = (l.0, omega (arith, l))
    reserve-others (checked w p) l =
        (l.0, omega (arith, l), λ e. absurd (omega (arith, l.1, cost_bounds (concat v) packet)))
    reserve-others (reserved w p) l = (At-append s.sent (concat v ∷ []) 0 p (concat w) l.0, l.1)
    reserve-others (filled w p) l = (At-append s.sent (concat v ∷ []) 0 p (concat w) l.0, l.1, l.2)
    reserve-others seeks l = tt
    reserve-others (found p) l = l
    reserve-others (present p) l = l
    reserve-others (sized p len) l =
        (l.0, l.1, λ e. let (b, a, n) = l.2 e in (b, At-append s.sent (concat v ∷ []) 0 p b a, n))
    reserve-others (claimed p len) l =
        let (b, a, n) = l.0 in ((b, At-append s.sent (concat v ∷ []) 0 p b a, n), l.1)
    reserve-others (copied p len b) l = (At-append s.sent (concat v ∷ []) 0 p b l.0, l.1, l.2)
    reserve-others (skipped p len) l =
        let (b, a, n) = l.0 in ((b, At-append s.sent (concat v ∷ []) 0 p b a, n), l.1)

    reserve-Global :
        q.pre_enqueue_pos + actual_len (length (concat v)) ≤ q.dequeue_pos + q.size
        → q.pre_enqueue_pos + actual_len (length (concat v)) < 2 ^ 64
        → Global (after_reserve v)
    reserve-Global room small = record {
      is_size = g.is_size;
      retired-le = g.retired-le;
      claimed-le = g.claimed-le;
      published-le = omega (arith, g.published-le);
      reserved-le = room;
      no_wrap = small;
      end = omega (arith, g.end, used-append s.sent (concat v ∷ []));
      packets = ArePackets-append s.sent (concat v) g.packets packet;
      edge = elim g.edge [
        | inl here ↦ inr (
          concat v,
          subst (λ x. At (s.sent ++ concat v ∷ []) 0 x (concat v)) (omega (arith, g.end))
              (At-middle s.sent (concat v) [] 0),
        )
        | inr (b, a) ↦ inr (b, At-append s.sent (concat v ∷ []) 0 q.enqueue_pos b a)
      ];
      out_edge = elim g.out_edge [
        | inl none_out ↦ inl none_out
        | inr (b, a) ↦ inr (b, At-append s.sent (concat v ∷ []) 0 q.dequeue_pos b a)
      ];
      rest = g.rest ++ concat v ∷ [];
      split =
          ap (λ xs. xs ++ concat v ∷ []) g.split ∙ append_assoc s.received g.rest (concat v ∷ []);
      next = g.next;
      stored = λ p b a lo hi. elim (At-last s.sent (concat v) 0 p b a) [
        | inl before ↦ g.stored p b before lo hi
        | inr last ↦ absurd (omega (arith, last.0, g.end, g.published-le))
      ];
    }

    -- A thread owns nothing at the end of what is reserved.
    end-free : (p : ℕ) → q.pre_enqueue_pos ≡ p → (o : Pc) → Local s o → owns o ≢ some p
    end-free p e o l x =
        let (b, a, place) = owned s o p l x in
        omega (
          arith,
          At-bounds s.sent 0 p b a,
          g.end,
          cost_bounds b (At-IsPacket s.sent 0 p b g.packets a),
        )

    pub reserve-Kept :
        (p : ℕ)
        → q.pre_enqueue_pos ≡ p
        → p + actual_len (length (concat v)) < 2 ^ 64
        → Local s (checked v p)
        → Kept s (after_reserve v) (checked v p) (reserved v p)
    reserve-Kept p e small l = record {
      shared = reserve-Global (omega (arith, l.2 (sym e))) (omega arith);
      own = (
        subst (λ x. At (s.sent ++ concat v ∷ []) 0 x (concat v)) (omega (arith, g.end))
            (At-middle s.sent (concat v) [] 0),
        omega (arith, g.published-le),
      );
      others = λ o d k. reserve-others o k;
      fresh = λ x f. let same : p ≡ x = cc in inr (end-free x (e ∙ same));
    }

-- ===== src/Queue/Threads/Retiring.antt =====
-- queue.cpp: the last compare-and-swap of `dequeue` keeps what holds of the queue and what the other threads know.
use functions.Base.{ℕ, ◌+◌, ◌≤◌, ◌≡◌, ◌≢◌, inl, inr, refl, sym, ap, ◌∙◌, List, some, arith}
use mathlib.Core.Path.{subst}
use functions.Queue.{Queue, actual_len}
use functions.Queue.History.{At, At-next, At-IsPacket, At-Apart, cost_bounds}
use functions.Queue.Threads.{
  Pc, idle, wants, loaded, checked, reserved, filled, seeks, found, present, sized, claimed, copied,
  skipped, Shared,
}
use functions.Queue.Threads.Gets.{before-claimed}
use functions.Queue.Threads.Defs.{owns, HasLen, IsOut, Local, Global, Differ, Kept}

module _ (s : Shared) (g : Global s) where
  abbrev pub q : Queue
  q = s.queue

  -- `retires` and `retire_skipped`
  abbrev pub after_retire : ℕ → Shared
  after_retire end = record s { queue = record q { dequeue_pos = end } }

  module _ (r : Pc) (p len : ℕ) (mine : owns r ≡ some p) (h : HasLen s p len) (out : IsOut s p)
      (first : q.dequeue_pos ≡ p) where
    abbrev pub retired_end : ℕ
    retired_end = p + actual_len len

    -- What another thread has claimed lies behind.
    out-behind : (i : ℕ) (b : List ℕ) → At s.sent 0 i b → p ≢ i → p ≤ i → retired_end ≤ i
    out-behind i b a d le =
        let (c, ca, ce) = h in
        elim (At-Apart s.sent 0 p i c b ca a) [
          | inl same ↦ absurd (d same.0)
          | inr (inl after) ↦ omega (arith, after, ap actual_len ce)
          | inr (inr before) ↦
              absurd (omega (arith, cost_bounds b (At-IsPacket s.sent 0 i b g.packets a)))
        ]

    IsOut-other :
        (o : Pc) (i : ℕ) (b : List ℕ)
        → Differ r o
        → owns o ≡ some i
        → At s.sent 0 i b
        → IsOut s i
        → IsOut (after_retire retired_end) i
    IsOut-other o i b d e a k =
        (out-behind i b a (λ same. d p mine (e ∙ ap some (sym same))) (omega (arith, k.0)), k.1)

    retire-others : (o : Pc) → Differ r o → Local s o → Local (after_retire retired_end) o
    retire-others (claimed i n) d k = (k.0, IsOut-other (claimed i n) i k.0.0 d refl k.0.1 k.1)
    retire-others (copied i n b) d k = (k.0, k.1, IsOut-other (copied i n b) i b d refl k.0 k.2)
    retire-others (skipped i n) d k = (k.0, IsOut-other (skipped i n) i k.0.0 d refl k.0.1 k.1)
    retire-others (checked w i) d k = (k.0, k.1, λ e. omega (arith, k.2 e, first))
    retire-others idle d k = k
    retire-others (wants w) d k = k
    retire-others (loaded w i) d k = k
    retire-others (reserved w i) d k = k
    retire-others (filled w i) d k = k
    retire-others seeks d k = k
    retire-others (found i) d k = k
    retire-others (present i) d k = k
    retire-others (sized i n) d k = k

    retire-Global : Global (after_retire retired_end)
    retire-Global = record {
      is_size = g.is_size;
      retired-le =
          let (b, a, n) = h in omega (arith, before-claimed s g p b a out.1, ap actual_len n);
      claimed-le = g.claimed-le;
      published-le = g.published-le;
      reserved-le = omega (arith, g.reserved-le, first);
      no_wrap = g.no_wrap;
      end = g.end;
      packets = g.packets;
      edge = g.edge;
      out_edge =
          let (b, a, n) = h in
          let long = ap actual_len n in
          let below = before-claimed s g p b a out.1 in
          elim (At-next s.sent 0 p b a) [
            | inl last ↦ inl (omega (arith, last, g.end, g.claimed-le, g.published-le))
            | inr (c, ca) ↦ inr (c, subst (λ x. At s.sent 0 x c) (omega arith) ca)
          ];
      rest = g.rest;
      split = g.split;
      next = g.next;
      stored = λ i b a lo hi. g.stored i b a (omega (arith, lo, first)) hi;
    }

    pub retire-Kept : Kept s (after_retire retired_end) r idle
    retire-Kept = record {
      shared = retire-Global;
      own = tt;
      others = retire-others;
      fresh = λ x e. cc;
    }

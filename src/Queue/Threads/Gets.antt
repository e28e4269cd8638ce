-- ===== src/Queue/Threads/Gets.antt =====
-- queue.cpp: the steps of `dequeue` up to the copy keep what holds of the queue and what the other threads know.
use functions.Base.{
  ℕ, ◌+◌, ◌≤◌, ◌<◌, ◌≡◌, ◌≢◌, inl, inr, refl, sym, ap, ◌∙◌, List, [], ◌∷◌, ◌++◌, some, arith,
  length, append_assoc,
}
use mathlib.Core.Path.{subst}
use native.Mathlib.Decide.{dec_lt}
use functions.Queue.{Queue, actual_len, actual_pos, len_at, extract}
use functions.Queue.Packets.{Fits, extract_lem}
use functions.Queue.Segments.{used}
use functions.Queue.Dequeue.{len_at-ring, header-at}
use functions.Queue.History.{
  At, At-middle, At-bounds, At-IsPacket, At-aligned, At-Apart, cost_bounds, used-append,
}
use functions.Queue.Threads.{
  Pc, idle, wants, loaded, checked, reserved, filled, seeks, found, present, sized, claimed, copied,
  skipped, Shared,
}
use functions.Queue.Threads.Defs.{owns, Local, Global, owned, Kept}

module _ (s : Shared) (g : Global s) where
  abbrev pub q : Queue
  q = s.queue

  -- The packets that are not claimed begin at `m_pre_dequeue_pos`.
  next-At :
      q.pre_dequeue_pos < q.enqueue_pos
      → (b : List ℕ) × (left : List (List ℕ)) × (g.rest ≡ b ∷ left)
        × At s.sent 0 q.pre_dequeue_pos b
  next-At h = go g.rest refl
    where
      go :
          (r : List (List ℕ))
          → g.rest ≡ r
          → (b : List ℕ) × (left : List (List ℕ)) × (g.rest ≡ b ∷ left)
            × At s.sent 0 q.pre_dequeue_pos b
      go [] e = absurd (
          omega (
            arith,
            ap used (g.split ∙ ap (λ r. s.received ++ r) e),
            used-append s.received [],
            g.next,
            g.end,
            g.published-le,
          ))
      go (b ∷ left) e = (
        b,
        left,
        e,
        subst (λ xs. At xs 0 q.pre_dequeue_pos b) (sym (g.split ∙ ap (λ r. s.received ++ r) e))
            (subst (λ x. At (s.received ++ b ∷ left) 0 x b) (omega (arith, g.next))
              (At-middle s.received b left 0)),
      )

  -- What lies in the ring at a packet's position.
  At-Fits : (p : ℕ) (b : List ℕ) → At s.sent 0 p b → q.dequeue_pos ≤ p → Fits q.size p b
  At-Fits p b a lo =
      let ends = At-bounds s.sent 0 p b a in
      record {
        is_size = g.is_size;
        aligned = At-aligned s.sent 0 p b g.packets refl a;
        short = (At-IsPacket s.sent 0 p b g.packets a).1;
        in_ring = omega (arith, ends, g.end, g.reserved-le);
        no_wrap = omega (arith, ends, g.end, g.no_wrap);
      }

  -- A packet that begins before another one or before the end also ends before it.
  before_At :
      (p i : ℕ) (b c : List ℕ)
      → At s.sent 0 p b
      → At s.sent 0 i c
      → p < i
      → p + actual_len (length b) ≤ i
  before_At p i b c a d lt = elim (At-Apart s.sent 0 p i b c a d) [
    | inl same ↦ absurd (omega (arith, same.0))
    | inr (inl before) ↦ before
    | inr (inr after) ↦ absurd (omega arith)
  ]

  before-edge :
      (p : ℕ) (b : List ℕ)
      → At s.sent 0 p b
      → p < q.enqueue_pos
      → p + actual_len (length b) ≤ q.enqueue_pos
  before-edge p b a lt = elim g.edge [
    | inl none_reserved ↦ omega (arith, At-bounds s.sent 0 p b a, g.end)
    | inr (c, ca) ↦ before_At p q.enqueue_pos b c a ca lt
  ]

  pub before-claimed :
      (p : ℕ) (b : List ℕ)
      → At s.sent 0 p b
      → p < q.pre_dequeue_pos
      → p + actual_len (length b) ≤ q.pre_dequeue_pos
  before-claimed p b a lt = elim (dec_lt q.pre_dequeue_pos q.enqueue_pos) [
    | yes more ↦ let (c, left, e, ca) = next-At more in before_At p q.pre_dequeue_pos b c a ca lt
    | no all ↦
        let b = before-edge p b a (omega (arith, g.claimed-le)) in omega (arith, g.claimed-le)
  ]

  -- `reads_len`: what is read is true of the packet, if it is still there at the compare-and-swap.
  pub reads-Kept :
      (p : ℕ)
      → Local s (present p)
      → Kept s s (present p) (sized p (len_at (actual_pos p q.size) q.memory))
  reads-Kept p l = record {
    shared = g;
    own = (
      l.0,
      l.1,
      λ e.
          let (b, left, r, a) = next-At (omega (arith, l)) in
          let here = subst (λ x. At s.sent 0 x b) (sym e) a in
          let f = At-Fits p b here (omega (arith, g.retired-le)) in
          (
            b,
            here,
            len_at-ring q.memory q.size p b f.is_size f.aligned f.short
                (g.stored p b here (omega (arith, g.retired-le)) l.1),
          ),
    );
    others = λ o d k. k;
    fresh = λ x e. cc;
  }

  -- The bytes of a packet that is out.
  extract-At :
      (p len : ℕ) (b : List ℕ)
      → At s.sent 0 p b
      → len ≡ length b
      → q.dequeue_pos ≤ p
      → p < q.enqueue_pos
      → extract p len q ≡ b
  extract-At p len b a e lo hi =
      ap (λ n. extract p n q) e
      ∙ (extract_lem p b q (At-Fits p b a lo)
          ∙ (header-at q.memory q.size p b (g.stored p b a lo hi)).1)

  pub copies-Kept :
      (p len : ℕ)
      → Local s (claimed p len)
      → Kept s s (claimed p len) (copied p len (extract p len q))
  copies-Kept p len l = record {
    shared = g;
    own =
        let (b, a, e) = l.0 in
        let same = extract-At p len b a e l.1.0 (omega (arith, l.1, g.claimed-le)) in
        (subst (At s.sent 0 p) (sym same) a, e ∙ ap (λ (x : List ℕ). length x) (sym same), l.1);
    others = λ o d k. k;
    fresh = λ x e. inl e;
  }

  -- `claim_won`
  abbrev pub after_claim : ℕ → List ℕ → Shared
  after_claim end b = record s {
    queue = record q { pre_dequeue_pos = end };
    received = s.received ++ b ∷ [];
  }

  module _ (p len : ℕ) (l : Local s (sized p len)) (first : q.pre_dequeue_pos ≡ p) where
    abbrev pub claimed_end : ℕ
    claimed_end = p + actual_len len

    len-pos : p < claimed_end
    len-pos =
        let (b, a, e) = l.2 (sym first) in
        omega (arith, cost_bounds b (At-IsPacket s.sent 0 p b g.packets a), ap actual_len e)

    claim-others : (b : List ℕ) (o : Pc) → Local s o → Local (after_claim claimed_end b) o
    claim-others b (found i) k = omega (arith, len-pos)
    claim-others b (present i) k = (omega (arith, len-pos), k.1)
    claim-others b (sized i n) k =
        (omega (arith, len-pos), k.1, λ e. absurd (omega (arith, len-pos, k.0)))
    claim-others b (claimed i n) k = (k.0, (k.1.0, omega (arith, len-pos, k.1.1)))
    claim-others b (copied i n c) k = (k.0, k.1, (k.2.0, omega (arith, len-pos, k.2.1)))
    claim-others b (skipped i n) k = (k.0, (k.1.0, omega (arith, len-pos, k.1.1)))
    claim-others b idle k = k
    claim-others b (wants w) k = k
    claim-others b (loaded w i) k = k
    claim-others b (checked w i) k = k
    claim-others b (reserved w i) k = k
    claim-others b (filled w i) k = k
    claim-others b seeks k = k

    claim-free : (x : ℕ) → p ≡ x → (o : Pc) → Local s o → owns o ≢ some x
    claim-free x e o k f = let (b, a, place) = owned s o x k f in ground (arith, place, l.1)

    claim-Global : (b : List ℕ) → extract p len q ≡ b → Global (after_claim claimed_end b)
    claim-Global b e =
        let (c, a, n) = l.2 (sym first) in
        let (d, left, split, ad) = next-At (omega (arith, l.1)) in
        let same : b ≡ d =
          sym e ∙ (extract-At p len c a n (omega (arith, g.retired-le)) l.1 ∙ one c d a ad) in
        let long : actual_len len ≡ actual_len (length c) = ap actual_len n in
        record {
          is_size = g.is_size;
          retired-le = omega (arith, g.retired-le);
          claimed-le = omega (arith, before-edge p c a l.1, long);
          published-le = g.published-le;
          reserved-le = g.reserved-le;
          no_wrap = g.no_wrap;
          end = g.end;
          packets = g.packets;
          edge = g.edge;
          out_edge = elim g.out_edge [
            | inl none_out ↦ inr (c, subst (λ x. At s.sent 0 x c) (omega arith) a)
            | inr some_out ↦ inr some_out
          ];
          rest = left;
          split =
              g.split
              ∙ (ap (λ r. s.received ++ r) (split ∙ ap (λ x. x ∷ left) (sym same))
                  ∙ sym (append_assoc s.received (b ∷ []) left));
          next = omega (
            arith,
            used-append s.received (b ∷ []),
            g.next,
            long,
            ap (λ (x : List ℕ). actual_len (length x)) (same ∙ sym (one c d a ad)),
          );
          stored = g.stored;
        }
      where
        one : (c d : List ℕ) → At s.sent 0 p c → At s.sent 0 q.pre_dequeue_pos d → c ≡ d
        one c d a ad = elim (At-Apart s.sent 0 p q.pre_dequeue_pos c d a ad) [
          | inl same ↦ same.1
          | inr (inl before) ↦
              absurd (omega (arith, cost_bounds c (At-IsPacket s.sent 0 p c g.packets a)))
          | inr (inr after) ↦
              absurd (
                omega
                  (arith, cost_bounds d (At-IsPacket s.sent 0 q.pre_dequeue_pos d g.packets ad)))
        ]

    pub claim-Kept :
        Kept s (after_claim claimed_end (extract p len q)) (sized p len) (claimed p len)
    claim-Kept = record {
      shared = claim-Global (extract p len q) refl;
      own = (l.2 (sym first), (omega (arith, g.retired-le), len-pos));
      others = λ o d k. claim-others (extract p len q) o k;
      fresh = λ x e. let same : p ≡ x = cc in inr (claim-free x same);
    }

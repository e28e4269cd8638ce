-- ===== src/Queue/Threads/Invariant.antt =====
-- queue.cpp: what holds in every state that the threads reach.
use functions.Base.{
  ℕ, ◌+◌, ◌^◌, ◌<◌, ◌≡◌, ◌≢◌, ◌⊎◌, inl, inr, refl, sym, ap, ◌∙◌, [], ◌∷◌, ◌++◌, none, some, arith,
  length,
}
use mathlib.Core.Path.{subst}
use native.Mathlib.Decide.{ℕ_discrete}
use functions.Queue.{Queue, actual_len, reserve, publish, claim, retire, extract}
use functions.Queue.Copy.{concat}
use functions.Queue.Segments.{Holds}
use functions.Queue.History.{At-bounds}
use functions.Queue.Threads.{
  Pc, idle, wants, loaded, checked, reserved, filled, seeks, found, present, sized, claimed, copied,
  skipped, Shared, System, Move, call_enqueue, loads, full, room, reserve_lost, reserve_won,
  copying, fills, publish_waits, publishes, call_dequeue, find, sees_none, sees_some, reads_len,
  claim_lost, claim_won, copies, no_memory, retire_waits, retires, retire_skipped, stand_at, Step,
  pick, at_start, Reach, start, later,
}
use functions.Queue.Threads.Defs.{owns, HasLen, IsOut, Local, Global, Inv, Kept}
use functions.Queue.Threads.Reserving.{room-Kept, reserve-Kept}
use functions.Queue.Threads.Puts.{copying-Kept, fills-Kept, publish-Kept}
use functions.Queue.Threads.Gets.{reads-Kept, copies-Kept, claim-Kept}
use functions.Queue.Threads.Retiring.{retire-Kept}

-- A step that changes only where the thread stands.
stays : (s : Shared) (r r' : Pc) → Global s → Local s r' → owns r' ≡ none → Kept s s r r'
stays s r r' g l e = record { shared = g; own = l; others = λ o d k. k; fresh = λ p f. absurd (cc) }

-- The positions do not pass 2 ^ 64, so a compare-and-swap that succeeds sets the sum.
pub reserve-some :
    (p n : ℕ) (q r : Queue)
    → reserve p n q ≡ some r
    → p + n < 2 ^ 64
    → (q.pre_enqueue_pos ≡ p) × (r ≡ record q { pre_enqueue_pos = q.pre_enqueue_pos + n })
unfolding reserve
reserve-some p n q r e h = (ground arith, ground arith)

pub publish-some :
    (p n : ℕ) (q r : Queue)
    → publish p n q ≡ some r
    → p + n < 2 ^ 64
    → (q.enqueue_pos ≡ p) × (r ≡ record q { enqueue_pos = p + n; calls = r.calls })
unfolding publish
publish-some p n q r e h = (ground arith, ground arith)

pub claim-some :
    (p n : ℕ) (q r : Queue)
    → claim p n q ≡ some r
    → (q.pre_dequeue_pos ≡ p) × (p + n < 2 ^ 64 → r ≡ record q { pre_dequeue_pos = p + n })
unfolding claim
claim-some p n q r e = (ground arith, λ h. ground arith)

pub retire-some :
    (p n : ℕ) (q r : Queue)
    → retire p n q ≡ some r
    → (q.dequeue_pos ≡ p) × (p + n < 2 ^ 64 → r ≡ record q { dequeue_pos = p + n })
unfolding retire
retire-some p n q r e = (ground arith, λ h. ground arith)

-- A packet's end is no position past 2 ^ 64.
pub end-lt : (s : Shared) (p len : ℕ) → Global s → HasLen s p len → p + actual_len len < 2 ^ 64
end-lt s p len g (b, a, e) =
    omega (arith, At-bounds s.sent 0 p b a, g.end, g.no_wrap, ap actual_len e)

retired :
    (s : Shared) (r : Pc) (p len : ℕ) (q : Queue)
    → Global s
    → owns r ≡ some p
    → HasLen s p len
    → IsOut s p
    → retire p (actual_len len) s.queue ≡ some q
    → Kept s (record s { queue = q }) r idle
retired s r p len q g mine h out e =
    let (first, same) = retire-some p (actual_len len) s.queue q e in
    subst (λ x. Kept s (record s { queue = x }) r idle) (sym (same (end-lt s p len g h)))
      (retire-Kept s g r p len mine h out first)

-- Each step keeps what holds of the queue and what the threads know.
pub Move-Kept : {s t : Shared} {r r' : Pc} → Global s → Local s r → Move s r t r' → Kept s t r r'
Move-Kept {s} g l (call_enqueue {v} packet) = stays s idle (wants v) g packet refl
Move-Kept {s} g l (loads {v}) =
    stays s (wants v) (loaded v s.queue.pre_enqueue_pos) g (l, omega arith) refl
Move-Kept {s} g l (full {v} {p} e) = stays s (loaded v p) idle g tt refl
Move-Kept {s} g l (room {v} {p} e) = room-Kept s g v p e l
Move-Kept {s} g l (reserve_lost {v} {p} e) = stays s (checked v p) (wants v) g l.0 refl
Move-Kept {s} g l (reserve_won {v} {p} {q} e small) =
    let (first, same) = reserve-some p (actual_len (length (concat v))) s.queue q e small in
    subst
      (λ x.
        Kept s (record s { queue = x; sent = s.sent ++ concat v ∷ [] }) (checked v p)
          (reserved v p))
      (sym same) (reserve-Kept s g v l.0 p first small l)
Move-Kept {s} g l (copying {v} {p} {m} e) = copying-Kept s g v p l m e
Move-Kept {s} g l (fills {v} {p}) = fills-Kept s g v p l
Move-Kept {s} g l (publish_waits {v} {p} e) = record {
  shared = g;
  own = l;
  others = λ o d k. k;
  fresh = λ x f. inl f;
}
Move-Kept {s} g l (publishes {v} {p} {q} e) =
    let (first, same) =
      publish-some p (actual_len (length (concat v))) s.queue q e
        (end-lt s p (length (concat v)) g (concat v, l.0, refl)) in
    subst (λ x. Kept s (record s { queue = x }) (filled v p) idle) (sym same)
      (publish-Kept s g v p q.calls l first)
Move-Kept {s} g l call_dequeue = stays s idle seeks g tt refl
Move-Kept {s} g l find = stays s seeks (found s.queue.pre_dequeue_pos) g (omega arith) refl
Move-Kept {s} g l (sees_none {p} e) = stays s (found p) idle g tt refl
Move-Kept {s} g l (sees_some {p} e) =
    stays s (found p) (present p) g (l, ground (arith, g.claimed-le)) refl
Move-Kept {s} g l (reads_len {p}) = reads-Kept s g p l
Move-Kept {s} g l (claim_lost {p} {len} e) = stays s (sized p len) seeks g tt refl
Move-Kept {s} g l (claim_won {p} {len} {q} e) =
    let (first, same) = claim-some p (actual_len len) s.queue q e in
    subst
      (λ x.
        Kept s (record s { queue = x; received = s.received ++ extract p len s.queue ∷ [] })
          (sized p len) (claimed p len))
      (sym (same (end-lt s p len g (l.2 (sym first))))) (claim-Kept s g p len l first)
Move-Kept {s} g l (copies {p} {len}) = copies-Kept s g p len l
Move-Kept {s} g l (no_memory {p} {len}) = record {
  shared = g;
  own = l;
  others = λ o d k. k;
  fresh = λ x f. inl f;
}
Move-Kept {s} g l (retire_waits {p} {len} {b} e) = record {
  shared = g;
  own = l;
  others = λ o d k. k;
  fresh = λ x f. inl f;
}
Move-Kept {s} g l (retires {p} {len} {b} {q} e) =
    retired s (copied p len b) p len q g refl (b, l.0, l.1) l.2 e
Move-Kept {s} g l (retire_skipped {p} {len} {q} e) =
    retired s (skipped p len) p len q g refl l.0 l.1 e

-- The other threads keep where they stand.
pub turn_cases :
    (pc : ℕ → Pc) (i : ℕ) (r : Pc) (j : ℕ)
    → ((i ≡ j) × (stand_at pc i r j ≡ r)) ⊎ ((i ≢ j) × (stand_at pc i r j ≡ pc j))
turn_cases pc i r j = elim (ℕ_discrete i j) [
  | yes e ↦ inl (e, ground arith)
  | no d ↦ inr (d, ground arith)
]

-- So does each step of the system.
pub Step-Inv : {s t : System} → Step s t → Inv s → Inv t
Step-Inv {s} (pick i {t} {p = r} mv) inv = record {
  shared = k.shared;
  each = λ j. elim (turn_cases s.pc i r j) [
    | inl (e, here) ↦ subst (Local t) (sym here) k.own
    | inr (d, there) ↦
        subst (Local t) (sym there)
          (k.others (s.pc j) (λ p ei ej. d (inv.alone i j p ei ej)) (inv.each j))
  ];
  alone = λ a b p ea eb. elim (turn_cases s.pc i r a) [
    | inl (e, here) ↦ elim (turn_cases s.pc i r b) [
      | inl (f, there) ↦ sym e ∙ f
      | inr (d, there) ↦ sym e ∙ taken p (ap owns (sym here) ∙ ea) b (ap owns (sym there) ∙ eb)
    ]
    | inr (d, here) ↦ elim (turn_cases s.pc i r b) [
      | inl (f, there) ↦ sym (taken p (ap owns (sym there) ∙ eb) a (ap owns (sym here) ∙ ea)) ∙ f
      | inr (c, there) ↦ inv.alone a b p (ap owns (sym here) ∙ ea) (ap owns (sym there) ∙ eb)
    ]
  ];
}
  where
    k : Kept s.shared t (s.pc i) r
    k = Move-Kept inv.shared (inv.each i) mv

    taken : (p : ℕ) → owns r ≡ some p → (b : ℕ) → owns (s.pc b) ≡ some p → i ≡ b
    taken p e b f = elim (k.fresh p e) [
      | inl before ↦ inv.alone i b p before f
      | inr free ↦ absurd (free (s.pc b) (inv.each b) f)
    ]

-- After `init`.
abbrev pub IsFresh : Queue → Type 0
IsFresh q = Holds q [] × (q.enqueue_pos ≡ 0)

start-Inv : (q : Queue) → IsFresh q → Inv (at_start q)
start-Inv q (h, e) = record {
  shared = record {
    is_size = h.is_size;
    retired-le = omega (arith, h.none_dequeues);
    claimed-le = omega (arith, h.none_dequeues, h.segment);
    published-le = omega (arith, h.none_enqueues);
    reserved-le = omega (arith, h.none_enqueues, h.within);
    no_wrap = omega (arith, h.none_enqueues);
    end = omega (arith, h.none_enqueues, e);
    packets = tt;
    edge = inl (sym h.none_enqueues);
    out_edge = inl (sym h.none_dequeues);
    rest = [];
    split = refl;
    next = omega (arith, h.none_dequeues, h.segment, e);
    stored = λ p b a. absurd a;
  };
  each = λ i. tt;
  alone = λ i j p e. absurd (cc);
}

pub Reach-Inv : {q : Queue} {s : System} → IsFresh q → Reach q s → Inv s
Reach-Inv {q} f start = start-Inv q f
Reach-Inv f (later r st) = Step-Inv st (Reach-Inv f r)

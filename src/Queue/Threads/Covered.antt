-- ===== src/Queue/Threads/Covered.antt =====
-- queue.cpp: a packet that is under way is always some thread's.
use functions.Base.{
  ℕ, ◌+◌, ◌≤◌, ◌<◌, ◌≡◌, ◌≢◌, ◌⊎◌, inl, inr, refl, sym, ap, ◌∙◌, List, [], ◌∷◌, ◌++◌, Option, none,
  some, arith, length,
}
use mathlib.Core.Path.{subst}
use native.Mathlib.Decide.{dec_lt, ℕ_discrete}
use functions.Queue.{Queue, actual_len, retire, extract, fill, len_at, actual_pos}
use functions.Queue.Copy.{concat}
use functions.Queue.History.{At, At-last, At-Apart, At-IsPacket, cost_bounds}
use functions.Queue.Threads.{
  Pc, idle, wants, loaded, checked, reserved, filled, seeks, found, present, sized, claimed, copied,
  skipped, Shared, System, Move, call_enqueue, loads, full, room, reserve_lost, reserve_won,
  copying, fills, publish_waits, publishes, call_dequeue, find, sees_none, sees_some, reads_len,
  claim_lost, claim_won, copies, no_memory, retire_waits, retires, retire_skipped, Step, pick,
  Reach, start, later,
}
use functions.Queue.Threads.Defs.{owns, HasLen, IsOut, Local, Global, Inv}
use functions.Queue.Threads.Reserving.{after_reserve}
use functions.Queue.Threads.Puts.{after_publish}
use functions.Queue.Threads.Gets.{after_claim}
use functions.Queue.Threads.Retiring.{after_retire}
use functions.Queue.Threads.Invariant.{
  IsFresh, Reach-Inv, end-lt, turn_cases, reserve-some, publish-some, claim-some, retire-some,
}

-- A packet that is reserved and not published, or claimed and not retired.
abbrev pub Pending : Shared → ℕ → Type 0
Pending s p = (s.queue.enqueue_pos ≤ p) ⊎ IsOut s p

-- The thread that moves has the packet, or it has not and the packet was pending before.
abbrev Handed : Shared → Pc → Pc → ℕ → List ℕ → Type 0
Handed s r r' p b = (owns r' ≡ some p) ⊎ (At s.sent 0 p b × Pending s p × (owns r ≢ some p))

owner_cases : (o : Option ℕ) (p : ℕ) → (o ≡ some p) ⊎ (o ≢ some p)
owner_cases none p = inr (λ e. cc)
owner_cases (some x) p = elim (ℕ_discrete x p) [
  | yes e ↦ inl (ap some e)
  | no d ↦ inr (λ (f : some x ≡ some p). d (cc))
]

same_owner :
    (s : Shared) (r r' : Pc) (p : ℕ) (b : List ℕ)
    → owns r ≡ owns r'
    → At s.sent 0 p b
    → Pending s p
    → Handed s r r' p b
same_owner s r r' p b e a h = elim (owner_cases (owns r') p) [
  | inl mine ↦ inl mine
  | inr d ↦ inr (a, h, λ f. d (sym e ∙ f))
]

reserve-Handed :
    (s : Shared) (g : Global s) (v : List (List ℕ)) (x p : ℕ) (b : List ℕ)
    → s.queue.pre_enqueue_pos ≡ x
    → At (after_reserve s g v).sent 0 p b
    → Pending (after_reserve s g v) p
    → Handed s (checked v x) (reserved v x) p b
reserve-Handed s g v x p b e a h = elim (At-last s.sent (concat v) 0 p b a) [
  | inl before ↦ inr (before, h, λ f. cc)
  | inr last ↦ inl (ap some (omega (arith, last.0, g.end)))
]

publish-Handed :
    (s : Shared) (g : Global s) (v : List (List ℕ)) (x n calls p : ℕ) (b : List ℕ)
    → s.queue.enqueue_pos ≡ x
    → 0 < n
    → At s.sent 0 p b
    → Pending (after_publish s g (x + n) calls) p
    → Handed s (filled v x) idle p b
publish-Handed s g v x n calls p b e z a (inl h) =
    inr (a, inl (omega arith), λ f. let same : x ≡ p = cc in omega arith)
publish-Handed s g v x n calls p b e z a (inr h) =
    inr (a, inr h, λ f. let same : x ≡ p = cc in omega (arith, h.1, g.claimed-le))

claim-Handed :
    (s : Shared) (g : Global s) (x len p : ℕ) (b c : List ℕ)
    → HasLen s x len
    → s.queue.pre_dequeue_pos ≡ x
    → At s.sent 0 p b
    → Pending (after_claim s g (x + actual_len len) c) p
    → Handed s (sized x len) (claimed x len) p b
claim-Handed s g x len p b c k e a (inl h) = inr (a, inl h, λ f. cc)
claim-Handed s g x len p b c (d, ad, n) e a (inr h) = elim (dec_lt p x) [
  | yes before ↦ inr (a, inr (h.0, omega arith), λ f. cc)
  | no late ↦ elim (At-Apart s.sent 0 x p d b ad a) [
    | inl same ↦ inl (ap some same.0)
    | inr (inl after) ↦ absurd (omega (arith, h.1, after, ap actual_len n))
    | inr (inr ahead) ↦
        absurd (omega (arith, ahead, cost_bounds b (At-IsPacket s.sent 0 p b g.packets a)))
  ]
]

retire-Handed :
    (s : Shared) (g : Global s) (r : Pc) (x n p : ℕ) (b : List ℕ)
    → owns r ≡ some x
    → IsOut s x
    → s.queue.dequeue_pos ≡ x
    → 0 < n
    → At s.sent 0 p b
    → Pending (after_retire s g (x + n)) p
    → Handed s r idle p b
retire-Handed s g r x n p b mine out e z a (inl h) =
    inr (a, inl h, λ f. let same : x ≡ p = cc in omega (arith, h, out.1, g.claimed-le))
retire-Handed s g r x n p b mine out e z a (inr h) =
    inr (a, inr (omega (arith, h.0), h.1), λ f. let same : x ≡ p = cc in omega (arith, h.0))

pub cost-pos : (s : Shared) (p len : ℕ) → Global s → HasLen s p len → 0 < actual_len len
cost-pos s p len g (b, a, e) =
    omega (arith, cost_bounds b (At-IsPacket s.sent 0 p b g.packets a), ap actual_len e)

retired-Handed :
    (s : Shared) (g : Global s) (r : Pc) (x len p : ℕ) (q : Queue) (b : List ℕ)
    → owns r ≡ some x
    → HasLen s x len
    → IsOut s x
    → retire x (actual_len len) s.queue ≡ some q
    → At s.sent 0 p b
    → Pending (record s { queue = q }) p
    → Handed s r idle p b
retired-Handed s g r x len p q b mine h out e a pend =
    let (first, same) = retire-some x (actual_len len) s.queue q e in
    retire-Handed s g r x (actual_len len) p b mine out first (cost-pos s x len g h) a
      (subst (λ y. Pending (record s { queue = y }) p) (same (end-lt s x len g h)) pend)

-- After each step every pending packet is still some thread's.
Move-Handed :
    {s t : Shared} {r r' : Pc} (g : Global s) (l : Local s r) (mv : Move s r t r') (p : ℕ)
    (b : List ℕ)
    → At t.sent 0 p b
    → Pending t p
    → Handed s r r' p b
unfolding fill
Move-Handed {s} g l (call_enqueue {v} packet) p b a h = same_owner s idle (wants v) p b refl a h
Move-Handed {s} g l (loads {v}) p b a h =
    same_owner s (wants v) (loaded v s.queue.pre_enqueue_pos) p b refl a h
Move-Handed {s} g l (full {v} {p = x} e) p b a h = same_owner s (loaded v x) idle p b refl a h
Move-Handed {s} g l (room {v} {p = x} e) p b a h =
    same_owner s (loaded v x) (checked v x) p b refl a h
Move-Handed {s} g l (reserve_lost {v} {p = x} e) p b a h =
    same_owner s (checked v x) (wants v) p b refl a h
Move-Handed {s} g l (reserve_won {v} {p = x} {q} e small) p b a h =
    let (first, same) = reserve-some x (actual_len (length (concat v))) s.queue q e small in
    reserve-Handed s g v x p b first a
      (subst (λ y. Pending (record s { queue = y; sent = s.sent ++ concat v ∷ [] }) p) same h)
Move-Handed {s} g l (copying {v} {p = x} e) p b a h =
    same_owner s (reserved v x) (reserved v x) p b refl a h
Move-Handed {s} g l (fills {v} {p = x}) p b a h =
    same_owner s (reserved v x) (filled v x) p b refl a h
Move-Handed {s} g l (publish_waits {v} {p = x} e) p b a h =
    same_owner s (filled v x) (filled v x) p b refl a h
Move-Handed {s} g l (publishes {v} {p = x} {q} e) p b a h =
    let n = actual_len (length (concat v)) in
    let k : HasLen s x (length (concat v)) = (concat v, l.0, refl) in
    let (first, same) = publish-some x n s.queue q e (end-lt s x (length (concat v)) g k) in
    publish-Handed s g v x n q.calls p b first (cost-pos s x (length (concat v)) g k) a
      (subst (λ y. Pending (record s { queue = y }) p) same h)
Move-Handed {s} g l call_dequeue p b a h = same_owner s idle seeks p b refl a h
Move-Handed {s} g l find p b a h = same_owner s seeks (found s.queue.pre_dequeue_pos) p b refl a h
Move-Handed {s} g l (sees_none {p = x} e) p b a h = same_owner s (found x) idle p b refl a h
Move-Handed {s} g l (sees_some {p = x} e) p b a h = same_owner s (found x) (present x) p b refl a h
Move-Handed {s} g l (reads_len {p = x}) p b a h =
    same_owner s (present x) (sized x (len_at (actual_pos x s.queue.size) s.queue.memory)) p b refl
      a h
Move-Handed {s} g l (claim_lost {p = x} {len} e) p b a h =
    same_owner s (sized x len) seeks p b refl a h
Move-Handed {s} g l (claim_won {p = x} {len} {q} e) p b a h =
    let (first, same) = claim-some x (actual_len len) s.queue q e in
    let k = l.2 (sym first) in
    let received = s.received ++ extract x len s.queue ∷ [] in
    claim-Handed s g x len p b (extract x len s.queue) k first a (
      subst (λ y. Pending (record s { queue = y; received = received }) p)
        (same (end-lt s x len g k)) h)
Move-Handed {s} g l (copies {p = x} {len}) p b a h =
    same_owner s (claimed x len) (copied x len (extract x len s.queue)) p b refl a h
Move-Handed {s} g l (no_memory {p = x} {len}) p b a h =
    same_owner s (claimed x len) (skipped x len) p b refl a h
Move-Handed {s} g l (retire_waits {p = x} {len} {b = c} e) p b a h =
    same_owner s (copied x len c) (copied x len c) p b refl a h
Move-Handed {s} g l (retires {p = x} {len} {b = c} {q} e) p b a h =
    retired-Handed s g (copied x len c) x len p q b refl (c, l.0, l.1) l.2 e a h
Move-Handed {s} g l (retire_skipped {p = x} {len} {q} e) p b a h =
    retired-Handed s g (skipped x len) x len p q b refl l.0 l.1 e a h

abbrev pub Covered : System → Type 0
Covered s =
    (p : ℕ) (b : List ℕ)
    → At s.shared.sent 0 p b
    → Pending s.shared p
    → (i : ℕ) × (owns (s.pc i) ≡ some p)

Step-Covered : {s t : System} → Step s t → Inv s → Covered s → Covered t
Step-Covered {s} (pick i {t} {p = r} mv) inv c p b a h =
    elim (Move-Handed inv.shared (inv.each i) mv p b a h) [
      | inl mine ↦ (
        i,
        elim (turn_cases s.pc i r i) [
          | inl (e, here) ↦ ap owns here ∙ mine
          | inr (d, there) ↦ absurd (d refl)
        ],
      )
      | inr (a', h', d) ↦
          let (j, theirs) = c p b a' h' in
          (
            j,
            elim (turn_cases s.pc i r j) [
              | inl (e, here) ↦ absurd (d (ap (λ k. owns (s.pc k)) e ∙ theirs))
              | inr (e, there) ↦ ap owns there ∙ theirs
            ],
          )
    ]

pub Reach-Covered : {q : Queue} {s : System} → IsFresh q → Reach q s → Covered s
Reach-Covered f start = λ p b a. absurd a
Reach-Covered f (later r st) = Step-Covered st (Reach-Inv f r) (Reach-Covered f r)

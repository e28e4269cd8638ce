-- ===== src/Queue/Threads/Progress.antt =====
-- queue.cpp: the spinning loops come to an end: some thread can always get on.
use functions.Base.{
  ℕ, ◌+◌, ◌^◌, ◌<◌, ◌≡◌, inl, inr, refl, sym, List, some, arith, length, if◌then◌else◌,
}
use mathlib.Core.Path.{subst}
use functions.Queue.{Queue, actual_len, publish, retire, extract, fill}
use functions.Queue.Copy.{concat}
use functions.Queue.Threads.{
  Pc, idle, reserved, filled, claimed, copied, skipped, Shared, System, Move, fills, publishes,
  copies, retires, retire_skipped, stand_at, Step, pick, Reach,
}
use functions.Queue.Threads.Defs.{owns, HasLen, Local, Global, Inv}
use functions.Queue.Threads.Covered.{cost-pos, Reach-Covered}
use functions.Queue.Threads.Invariant.{IsFresh, Reach-Inv, Step-Inv, end-lt, turn_cases}

-- Steps of any threads, one after the other.
pub data Steps (s : System) : System → Type 0 where
  none_yet : Steps s s
  next : {t u : System} → Steps s t → Step t u → Steps s u

publish_first :
    (p n : ℕ) (q : Queue)
    → q.enqueue_pos ≡ p
    → p + n < 2 ^ 64
    → (r : Queue) × (publish p n q ≡ some r) × (r.enqueue_pos ≡ p + n)
unfolding publish
publish_first p n q e h = (
  record q { enqueue_pos = p + n; calls = if q.on_enqueued then q.calls + 1 else q.calls },
  ground arith,
  refl,
)

here-now : (pc : ℕ → Pc) (i : ℕ) (r : Pc) → stand_at pc i r i ≡ r
here-now pc i r = elim (turn_cases pc i r i) [
  | inl (e, here) ↦ here
  | inr (d, there) ↦ absurd (d refl)
]

-- A thread that stands at `r` makes a step.
Step-at :
    (s : System) (i : ℕ) (r r' : Pc) (t : Shared)
    → s.pc i ≡ r
    → Move s.shared r t r'
    → Step s (record { shared = t; pc = stand_at s.pc i r' })
Step-at s i r r' t e mv = pick i (subst (λ x. Move s.shared x t r') (sym e) mv)

at_owner : (s : System) (i : ℕ) (r : Pc) → Inv s → s.pc i ≡ r → Local s.shared r
at_owner s i r inv e = subst (Local s.shared) e (inv.each i)

-- The positions `first` before and behind some steps.
abbrev pub Grows : (Queue → ℕ) → System → Type 0
Grows first s = (t : System) × Steps s t × (first s.shared.queue < first t.shared.queue)

-- The owner of the first packet that is reserved publishes it, when it is copied.
filled-publishes :
    (s : System) (i : ℕ) (v : List (List ℕ)) (p : ℕ)
    → Inv s
    → s.pc i ≡ filled v p
    → s.shared.queue.enqueue_pos ≡ p
    → (t : System) × Step s t × (s.shared.queue.enqueue_pos < t.shared.queue.enqueue_pos)
filled-publishes s i v p inv e first =
    let l = at_owner s i (filled v p) inv e in
    let n = actual_len (length (concat v)) in
    let k : HasLen s.shared p (length (concat v)) = (concat v, l.0, refl) in
    let (q, done, end) =
      publish_first p n s.shared.queue first (end-lt s.shared p (length (concat v)) inv.shared k) in
    (
      _,
      Step-at s i (filled v p) idle (record s.shared { queue = q }) e (publishes done),
      omega (arith, end, cost-pos s.shared p (length (concat v)) inv.shared k),
    )

owner-publishes :
    (s : System) (i : ℕ) (r : Pc)
    → Inv s
    → s.pc i ≡ r
    → owns r ≡ some s.shared.queue.enqueue_pos
    → Grows (λ q. q.enqueue_pos) s
unfolding fill
owner-publishes s i (filled v p) inv e o =
    let (t, st, lt) = filled-publishes s i v p inv e (cc) in (t, next none_yet st, lt)
owner-publishes s i (reserved v p) inv e o =
    let step =
      Step-at s i (reserved v p) (filled v p)
        (record s.shared { queue = fill p v (length (concat v)) s.shared.queue }) e fills in
    let (t, st, lt) =
      filled-publishes _ i v p (Step-Inv step inv) (here-now s.pc i (filled v p)) (cc) in
    (t, next (next none_yet step) st, lt)
owner-publishes s i (claimed p len) inv e o =
    let l = at_owner s i (claimed p len) inv e in
    let same : p ≡ s.shared.queue.enqueue_pos = cc in
    absurd (omega (arith, l.1.1, inv.shared.claimed-le))
owner-publishes s i (copied p len b) inv e o =
    let l = at_owner s i (copied p len b) inv e in
    let same : p ≡ s.shared.queue.enqueue_pos = cc in
    absurd (omega (arith, l.2.1, inv.shared.claimed-le))
owner-publishes s i (skipped p len) inv e o =
    let l = at_owner s i (skipped p len) inv e in
    let same : p ≡ s.shared.queue.enqueue_pos = cc in
    absurd (omega (arith, l.1.1, inv.shared.claimed-le))
owner-publishes s i r inv e o = absurd (cc)

-- In every state that any number of threads reach, while a packet is reserved and not published, some
-- steps of the threads make `m_enqueue_pos` grow: the loop that waits for it is no deadlock.
pub publish_progress :
    {q : Queue} {s : System}
    → IsFresh q
    → Reach q s
    → s.shared.queue.enqueue_pos < s.shared.queue.pre_enqueue_pos
    → Grows (λ q. q.enqueue_pos) s
publish_progress {s} f r lt = elim g.edge [
  | inl none_reserved ↦ absurd (omega arith)
  | inr (b, a) ↦
      let (i, o) = Reach-Covered f r s.shared.queue.enqueue_pos b a (inl (omega arith)) in
      owner-publishes s i (s.pc i) (Reach-Inv f r) refl o
]
  where
    g : Global s.shared
    g = (Reach-Inv f r).shared

retire_first :
    (p n : ℕ) (q : Queue)
    → q.dequeue_pos ≡ p
    → p + n < 2 ^ 64
    → (r : Queue) × (retire p n q ≡ some r) × (r.dequeue_pos ≡ p + n)
unfolding retire
retire_first p n q e h = (record q { dequeue_pos = p + n }, ground arith, refl)

-- The owner of the first packet that is claimed retires it, when it is copied or skipped.
copied-retires :
    (s : System) (i p len : ℕ) (b : List ℕ)
    → Inv s
    → s.pc i ≡ copied p len b
    → s.shared.queue.dequeue_pos ≡ p
    → (t : System) × Step s t × (s.shared.queue.dequeue_pos < t.shared.queue.dequeue_pos)
copied-retires s i p len b inv e first =
    let l = at_owner s i (copied p len b) inv e in
    let k : HasLen s.shared p len = (b, l.0, l.1) in
    let (q, done, end) =
      retire_first p (actual_len len) s.shared.queue first (end-lt s.shared p len inv.shared k) in
    (
      _,
      Step-at s i (copied p len b) idle (record s.shared { queue = q }) e (retires done),
      omega (arith, end, cost-pos s.shared p len inv.shared k),
    )

skipped-retires :
    (s : System) (i p len : ℕ)
    → Inv s
    → s.pc i ≡ skipped p len
    → s.shared.queue.dequeue_pos ≡ p
    → (t : System) × Step s t × (s.shared.queue.dequeue_pos < t.shared.queue.dequeue_pos)
skipped-retires s i p len inv e first =
    let k = (at_owner s i (skipped p len) inv e).0 in
    let (q, done, end) =
      retire_first p (actual_len len) s.shared.queue first (end-lt s.shared p len inv.shared k) in
    (
      _,
      Step-at s i (skipped p len) idle (record s.shared { queue = q }) e (retire_skipped done),
      omega (arith, end, cost-pos s.shared p len inv.shared k),
    )

owner-retires :
    (s : System) (i : ℕ) (r : Pc)
    → Inv s
    → s.pc i ≡ r
    → owns r ≡ some s.shared.queue.dequeue_pos
    → s.shared.queue.dequeue_pos < s.shared.queue.pre_dequeue_pos
    → Grows (λ q. q.dequeue_pos) s
owner-retires s i (copied p len b) inv e o lt =
    let (t, st, more) = copied-retires s i p len b inv e (cc) in (t, next none_yet st, more)
owner-retires s i (skipped p len) inv e o lt =
    let (t, st, more) = skipped-retires s i p len inv e (cc) in (t, next none_yet st, more)
owner-retires s i (claimed p len) inv e o lt =
    let b = extract p len s.shared.queue in
    let step = Step-at s i (claimed p len) (copied p len b) s.shared e copies in
    let (t, st, more) =
      copied-retires _ i p len b (Step-Inv step inv) (here-now s.pc i (copied p len b)) (cc) in
    (t, next (next none_yet step) st, more)
owner-retires s i (filled v p) inv e o lt =
    let l = at_owner s i (filled v p) inv e in
    let same : p ≡ s.shared.queue.dequeue_pos = cc in
    absurd (omega (arith, l.1, inv.shared.claimed-le))
owner-retires s i (reserved v p) inv e o lt =
    let l = at_owner s i (reserved v p) inv e in
    let same : p ≡ s.shared.queue.dequeue_pos = cc in
    absurd (omega (arith, l.1, inv.shared.claimed-le))
owner-retires s i r inv e o lt = absurd (cc)

-- In every state that any number of threads reach, while a packet is claimed and not retired, some steps of
-- the threads make `m_dequeue_pos` grow.
pub retire_progress :
    {q : Queue} {s : System}
    → IsFresh q
    → Reach q s
    → s.shared.queue.dequeue_pos < s.shared.queue.pre_dequeue_pos
    → Grows (λ q. q.dequeue_pos) s
retire_progress {s} f r lt = elim g.out_edge [
  | inl none_out ↦ absurd (omega arith)
  | inr (b, a) ↦
      let (i, o) = Reach-Covered f r s.shared.queue.dequeue_pos b a (inr (omega arith, lt)) in
      owner-retires s i (s.pc i) (Reach-Inv f r) refl o lt
]
  where
    g : Global s.shared
    g = (Reach-Inv f r).shared

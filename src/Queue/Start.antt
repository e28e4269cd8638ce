-- ===== src/Queue/Start.antt =====
-- queue.cpp: `init` takes the sizes that the ring needs.
use functions.Base.{
  ℕ, zero, suc, ◌+◌, ◌*◌, ◌^◌, ◌≤◌, ◌<◌, ◌≡◌, ◌↔◌, refl, ap, ◌∙◌, Bool-cases, Bool, true, inl, inr,
  ltb, ◌==◌, ◌||◌, not, [], arith, some,
}
use functions.Base.Int.{pos}
use functions.Queue.{Memory, Queue, init, is_power_of_2, is_power_from}
use functions.Queue.Packets.{IsSize, IsSize-bounds}
use native.Mathlib.Decide.{dec_lt}
use native.Mathlib.Nat.{pow-le-pow_right}
use functions.Queue.Segments.{Holds}

-- The size of `init` is one of the ring's.
is_power_from-IsSize :
    (rounds i n : ℕ)
    → rounds + i ≤ 32
    → is_power_from rounds i n ≡ true
    → (k : ℕ) × (n ≡ 2 ^ k) × (k < 32)
unfolding is_power_from
is_power_from-IsSize zero i n h e = cc
is_power_from-IsSize (suc rounds) i n h e = elim (Bool-cases (n == 2 ^ i)) [
  | inl here ↦ (i, ground arith, omega arith)
  | inr further ↦ is_power_from-IsSize rounds (i + 1) n (omega arith) (ground arith)
]

is_power_from-pow :
    (rounds i k : ℕ) → i ≤ k → k < rounds + i → is_power_from rounds i (2 ^ k) ≡ true
unfolding is_power_from
is_power_from-pow zero i k l h = absurd (omega arith)
is_power_from-pow (suc rounds) i k l h = elim (dec_lt i k) [
  | yes below ↦ ground (arith, is_power_from-pow rounds (i + 1) k)
  | no here ↦ ground (arith, ap (λ (j : ℕ). 2 ^ j) {x = k} {y = i} (omega arith))
]

IsSize-of : (n : ℕ) → (k : ℕ) × (n ≡ 2 ^ k) × (k < 32) → 1024 ≤ n → IsSize n
IsSize-of n (k, power, small) l = record {
  exponent = k;
  power = power;
  at_least = elim (dec_lt k 10) [
    | yes less ↦
        absurd (omega (arith, pow-le-pow_right {n = 2} (omega arith) {i = k} {j = 9} (omega arith)))
    | no more ↦ omega arith
  ];
  at_most = omega arith;
}

-- The answer of `init` to `n`, for a block from `malloc`.
unfoldable pub accepts : ℕ → Bool
accepts n = not (ltb n 1024 || ltb (1024 * 1024 * 1024 * 3) n || not (is_power_of_2 n))

pub accepts-IsSize : (n : ℕ) → accepts n ≡ true → IsSize n
unfolding accepts is_power_of_2
accepts-IsSize n h =
    IsSize-of n (is_power_from-IsSize 32 0 n (omega arith) (ground arith)) (ground arith)

IsSize-accepts : (n : ℕ) → IsSize n → accepts n ≡ true
unfolding accepts is_power_of_2
IsSize-accepts n v =
    let power : is_power_from 32 0 n ≡ true =
      ap (is_power_from 32 0) v.power
      ∙ is_power_from-pow 32 0 v.exponent (omega arith) (omega (arith, v.at_most)) in
    let b = IsSize-bounds n v in rw power (ground arith)

-- `init` takes the powers of 2 from 2 ^ 10 to 2 ^ 31 and no other size.
pub init-IsSize :
    (m : Memory) (n : ℕ) (on_enqueued : Bool) (q : Queue)
    → ((init (some m) n on_enqueued q).0 ≡ pos 0) ↔ IsSize n
unfolding init accepts
init-IsSize m n on_enqueued q =
    ((λ e. accepts-IsSize n (ground arith)), λ (v : IsSize n). ground (arith, IsSize-accepts n v))

-- After `init` the queue holds nothing.
pub init-Holds :
    (m : Memory) (n : ℕ) (on_enqueued : Bool) (q : Queue)
    → IsSize n
    → (q' : Queue) × (init (some m) n on_enqueued q ≡ (pos 0, q'))
      × Holds q' []
      × (q'.size ≡ n)
      × (q'.enqueue_pos ≡ 0)
unfolding init accepts
init-Holds m n on_enqueued q v = (
  record {
    is_allocated = true;
    memory = m;
    size = n;
    enqueue_pos = 0;
    pre_enqueue_pos = 0;
    dequeue_pos = 0;
    pre_dequeue_pos = 0;
    on_enqueued = on_enqueued;
    calls = q.calls;
  },
  ground (arith, IsSize-accepts n v),
  record {
    is_size = v;
    aligned = refl;
    none_enqueues = refl;
    none_dequeues = refl;
    no_wrap = omega arith;
    within = omega arith;
    segment = refl;
  },
  refl,
  refl,
)

-- ===== src/Queue/Threads/Frames.antt =====
-- queue.cpp: a packet that is being copied lies apart from the others in the ring.
use functions.Base.{
  ℕ, zero, suc, ◌+◌, ◌%◌, ◌≤◌, ◌<◌, ◌≡◌, ◌≢◌, ◌⊎◌, inl, inr, refl, sym, ap, ◌∙◌, List, [], ◌∷◌,
  arith, length,
}
use functions.Queue.{Memory, actual_len, store_byte}
use functions.Queue.Ring.{ring_read, ring_write, mod-ne}
use functions.Queue.Packets.{encode}
use functions.Queue.Segments.{length-encode}
use functions.Queue.History.{IsPacket, Apart, cost_bounds}

-- Places that differ from those of `n` positions from `p` on.
abbrev pub Agrees : ℕ → ℕ → ℕ → Memory → Memory → Type 0
Agrees s p n m m' = (j : ℕ) → ((k : ℕ) → k < n → j ≢ (p + k) % s) → m' j ≡ m j

-- A write changes nothing else.
pub ring_write-Agrees :
    (s p n : ℕ) (bs : List ℕ) (m : Memory) → length bs ≤ n → Agrees s p n m (ring_write s p bs m)
unfolding ring_write
ring_write-Agrees s p n [] m h j o = refl
ring_write-Agrees s p zero (b ∷ bs) m h j o = absurd (omega arith)
ring_write-Agrees s p (suc n) (b ∷ bs) m h j o =
    ring_write-Agrees s (suc p) n bs (store_byte (p % s) b m) (omega arith) j
      (λ k l e. o (suc k) (omega arith) (e ∙ ap (λ x. x % s) (omega arith)))
    ∙ untouched
  where
    untouched : store_byte (p % s) b m j ≡ m j
    untouched =
        let ne : j ≢ p % s =
          λ e. o 0 (omega arith) (e ∙ ap (λ x. x % s) {x = p} {y = p + 0} (omega arith)) in
        ground (arith, ne)

-- One place in such a window.
place-Agrees :
    (s p n i : ℕ) (m m' : Memory)
    → Agrees s p n m m'
    → ((i < p) × (p + n ≤ i + s)) ⊎ ((p + n ≤ i) × (i < p + s))
    → m' (i % s) ≡ m (i % s)
place-Agrees s p n i m m' a (inl h) =
    a (i % s) (λ k l. mod-ne i (p + k) s (omega arith) (omega arith))
place-Agrees s p n i m m' a (inr h) =
    a (i % s) (λ k l e. mod-ne (p + k) i s (omega arith) (omega arith) (sym e))

-- Reading elsewhere in a window of one round.
ring_read-Agrees :
    (s p n i k : ℕ) (m m' : Memory)
    → Agrees s p n m m'
    → ((i + k ≤ p) × (p + n ≤ i + s)) ⊎ ((p + n ≤ i) × (i + k ≤ p + s))
    → ring_read s i k m' ≡ ring_read s i k m
unfolding ring_read
ring_read-Agrees s p n i zero m m' a h = refl
ring_read-Agrees s p n i (suc k) m m' a h =
    ground (arith, place-Agrees s p n i m m' a, ring_read-Agrees s p n (suc i) k m m' a)

-- A packet apart from the one that is being copied stays as it was read.
pub Apart-Agrees :
    (s lo p i : ℕ) (b c : List ℕ) (m m' : Memory)
    → IsPacket b
    → IsPacket c
    → Apart i c p b
    → (lo ≤ p) × (lo ≤ i)
    → (p + actual_len (length b) ≤ lo + s) × (i + actual_len (length c) ≤ lo + s)
    → Agrees s p (actual_len (length b)) m m'
    → ring_read s i (length (encode c)) m' ≡ ring_read s i (length (encode c)) m
Apart-Agrees s lo p i b c m m' pb pc h low high a =
    ring_read-Agrees s p (actual_len (length b)) i (length (encode c)) m m' a
      (ground (arith, length-encode c, cost_bounds c pc))

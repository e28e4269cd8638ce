-- ===== src/Queue/Ring.antt =====
-- queue.cpp: the ring seen from its positions, which count up for ever. A position's place is its
-- remainder by the size.
use functions.Base.{
  ℕ, zero, suc, ◌+◌, ◌-◌, ◌%◌, ◌≤◌, ◌<◌, ◌≡◌, ◌≢◌, ◌⊎◌, inl, inr, refl, sym, ap, ◌∙◌, List, [], ◌∷◌,
  ◌++◌, arith, length,
}
use functions.Queue.{Memory, store_byte, write_bytes, read_bytes}
use native.Mathlib.Decide.{dec_lt}
use native.Mathlib.Nat.{mod-lt, mod-eq_of_lt, mod-eq-sub-mod, mod-add-mod}

-- A step of less than a whole round goes on, or comes round once.
pub mod-step : (a d s : ℕ) → d < s → ((a + d) % s ≡ a % s + d) ⊎ ((a + d) % s + s ≡ a % s + d)
mod-step a d s h = elim (dec_lt (a % s + d) s) [
  | yes inside ↦ inl (sym (mod-add-mod a s d) ∙ mod-eq_of_lt inside)
  | no round ↦ inr (
      omega (
        arith,
        mod-add-mod a s d,
        mod-eq-sub-mod {n = a % s + d} {m = s} (omega arith),
        mod-eq_of_lt {n = a % s + d - s} {m = s} (omega (arith, mod-lt a {m = s} (omega arith))),
      ))
]

pub mod-add : (a d s : ℕ) → a % s + d < s → (a + d) % s ≡ a % s + d
mod-add a d s h = sym (mod-add-mod a s d) ∙ mod-eq_of_lt h

pub mod-ne : (a b s : ℕ) → a < b → b < a + s → a % s ≢ b % s
mod-ne a b s h k e = elim (mod-step a (b - a) s (omega arith)) [
  | inl on ↦ omega (arith, ap (λ x. x % s) {x = a + (b - a)} {y = b} (omega arith))
  | inr round ↦ omega (arith, ap (λ x. x % s) {x = a + (b - a)} {y = b} (omega arith))
]

module _ (s : ℕ) where
  unfoldable pub ring_write : ℕ → List ℕ → Memory → Memory
  ring_write p [] m = m
  ring_write p (b ∷ bs) m = ring_write (suc p) bs (store_byte (p % s) b m)

  unfoldable pub ring_read : ℕ → ℕ → Memory → List ℕ
  ring_read p zero m = []
  ring_read p (suc n) m = m (p % s) ∷ ring_read (suc p) n m

  pub ring_write-append :
      (xs ys : List ℕ) (p : ℕ) (m : Memory)
      → ring_write p (xs ++ ys) m ≡ ring_write (p + length xs) ys (ring_write p xs m)
  unfolding ring_write
  ring_write-append [] ys p m = ap (λ i. ring_write i ys m) (omega arith)
  ring_write-append (x ∷ xs) ys p m =
      ring_write-append xs ys (suc p) (store_byte (p % s) x m)
      ∙ ap (λ i. ring_write i ys (ring_write (suc p) xs (store_byte (p % s) x m))) (omega arith)

  pub ring_read-add :
      (n k p : ℕ) (m : Memory) → ring_read p (n + k) m ≡ ring_read p n m ++ ring_read (p + n) k m
  unfolding ring_read
  ring_read-add zero k p m =
      ap (λ j. ring_read p j m) {x = 0 + k} {y = k} (omega arith)
      ∙ ap (λ i. ring_read i k m) (omega arith)
  ring_read-add (suc n) k p m =
      ap (λ j. ring_read p j m) {x = suc n + k} {y = suc (n + k)} (omega arith)
      ∙ ap (λ r. m (p % s) ∷ r)
          (ring_read-add n k (suc p) m
            ∙ ap (λ i. ring_read (suc p) n m ++ ring_read i k m) (omega arith))

  pub length-ring_read : (n p : ℕ) (m : Memory) → length (ring_read p n m) ≡ n
  unfolding ring_read
  length-ring_read zero p m = refl
  length-ring_read (suc n) p m = ap suc (length-ring_read n (suc p) m)

  mod-suc : (i p : ℕ) → p % s ≡ i → suc i < s → suc p % s ≡ suc i
  mod-suc i p e h =
      ap (λ x. x % s) {x = suc p} {y = p + 1} (omega arith)
      ∙ (mod-add p 1 s (omega arith) ∙ omega arith)

  -- Up to the end of the ring, places follow one another.
  pub write-ring_write :
      (bs : List ℕ) (i p : ℕ) (m : Memory)
      → p % s ≡ i
      → i + length bs ≤ s
      → write_bytes i bs m ≡ ring_write p bs m
  unfolding ring_write write_bytes
  write-ring_write [] i p m e h = refl
  write-ring_write (b ∷ []) i p m e h = ap (λ j. store_byte j b m) (sym e)
  write-ring_write (b ∷ c ∷ bs) i p m e h =
      ap (λ j. write_bytes (suc i) (c ∷ bs) (store_byte j b m)) (sym e)
      ∙ write-ring_write (c ∷ bs) (suc i) (suc p) (store_byte (p % s) b m)
          (mod-suc i p e (omega arith)) (omega arith)

  pub read-ring_read :
      (n i p : ℕ) (m : Memory) → p % s ≡ i → i + n ≤ s → read_bytes i n m ≡ ring_read p n m
  unfolding ring_read read_bytes
  read-ring_read zero i p m e h = refl
  read-ring_read (suc zero) i p m e h = ap (λ j. m j ∷ []) (sym e)
  read-ring_read (suc (suc n)) i p m e h =
      ap (λ j. m j ∷ read_bytes (suc i) (suc n) m) (sym e)
      ∙ ap (λ r. m (p % s) ∷ r)
          (read-ring_read (suc n) (suc i) (suc p) m (mod-suc i p e (omega arith)) (omega arith))

  -- What lies less than a round before the bytes that are written stays as it is.
  pub ring_write-below :
      (bs : List ℕ) (p i : ℕ) (m : Memory)
      → i < p
      → p + length bs ≤ i + s
      → ring_write p bs m (i % s) ≡ m (i % s)
  unfolding ring_write
  ring_write-below [] p i m h k = refl
  ring_write-below (b ∷ bs) p i m h k =
      ground (arith, mod-ne i p s h, ring_write-below bs (suc p) i (store_byte (p % s) b m))

  pub ring_read-ring_write_below :
      (n i p : ℕ) (bs : List ℕ) (m : Memory)
      → i + n ≤ p
      → p + length bs ≤ i + s
      → ring_read i n (ring_write p bs m) ≡ ring_read i n m
  unfolding ring_read
  ring_read-ring_write_below zero i p bs m h k = refl
  ring_read-ring_write_below (suc n) i p bs m h k =
      ground (arith, ring_write-below bs p i m, ring_read-ring_write_below n (suc i) p bs m)

  pub ring_read-ring_write :
      (bs : List ℕ) (p : ℕ) (m : Memory)
      → length bs ≤ s
      → ring_read p (length bs) (ring_write p bs m) ≡ bs
  unfolding ring_read ring_write
  ring_read-ring_write [] p m h = refl
  ring_read-ring_write (b ∷ bs) p m h = ground (
    arith,
    ring_write-below bs (suc p) p (store_byte (p % s) b m),
    ring_read-ring_write bs (suc p) (store_byte (p % s) b m),
  )

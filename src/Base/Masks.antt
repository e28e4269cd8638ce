-- ===== src/Base/Masks.antt =====
-- A bitwise and with a mask of `k` ones is a remainder.
use Prim.Native.Nat.{
  ℕ, zero, suc, ◌+◌, ◌-◌, ◌*◌, ◌/◌, ◌%◌, ◌^◌, ◌≤◌, ◌<◌, min, bit_and, digits, bit_and-bitwise,
}
use mathlib.Core.Path.{◌≡◌, refl, ap, ◌∙◌}
use native.Mathlib.Nat.{div-add-mod, mod-lt, mul-add-mod_self_left, mod-eq_of_lt}
use native.Mathlib.Omega.{arith}

-- The recursion on the digits that the native operation stands for, from fuel `n`.
abbrev and_digits : ℕ → ℕ → ℕ → ℕ
and_digits n a b = digits (λ d. zero) min n a b

-- Any two amounts of fuel that reach the end give the same.
and_digits_fuel : (a n b m : ℕ) → a ≤ n → a ≤ m → and_digits n a b ≡ and_digits m a b
and_digits_fuel zero zero b zero h k = refl
and_digits_fuel zero zero b (suc m) h k = refl
and_digits_fuel zero (suc n) b zero h k = refl
and_digits_fuel zero (suc n) b (suc m) h k = refl
and_digits_fuel (suc a) zero b m h k = absurd (omega arith)
and_digits_fuel (suc a) (suc n) b zero h k = absurd (omega arith)
and_digits_fuel (suc a) (suc n) b (suc m) h k =
    omega (arith, and_digits_fuel (suc a / 2) n (b / 2) m (omega arith) (omega arith))

zero-bit_and : (b : ℕ) → bit_and 0 b ≡ 0
zero-bit_and b = bit_and-bitwise 0 b

lowest_digit : (a b : ℕ) → bit_and a b ≡ bit_and (a / 2) (b / 2) * 2 + min (a % 2) (b % 2)
lowest_digit zero b = omega (arith, zero-bit_and b, zero-bit_and (b / 2))
lowest_digit (suc a) b = omega (
  arith,
  bit_and-bitwise (suc a) b,
  bit_and-bitwise (suc a / 2) (b / 2),
  and_digits_fuel (suc a / 2) a (b / 2) (suc a / 2) (omega arith) (omega arith),
)

bit_and-zero_below : (n a : ℕ) → a ≤ n → bit_and a 0 ≡ 0
bit_and-zero_below n zero h = refl
bit_and-zero_below zero (suc a) h = absurd (omega arith)
bit_and-zero_below (suc n) (suc a) h =
    omega (arith, lowest_digit (suc a) 0, bit_and-zero_below n (suc a / 2) (omega arith))

pub pow-pos : (k : ℕ) → 0 < 2 ^ k
pow-pos zero = omega arith
pow-pos (suc k) = omega (arith, pow-pos k)

mod-double : (a p : ℕ) → 0 < p → a % (p * 2) ≡ (a / 2) % p * 2 + a % 2
mod-double a p h =
    ap (λ x. x % (p * 2)) split
    ∙ (mul-add-mod_self_left (p * 2) (a / 2 / p) ((a / 2) % p * 2 + a % 2)
        ∙ mod-eq_of_lt (omega (arith, mod-lt (a / 2) h)))
  where
    split : a ≡ p * 2 * (a / 2 / p) + ((a / 2) % p * 2 + a % 2)
    split = omega (arith, ap (λ (x : ℕ). x * 2) (div-add-mod (a / 2) p))

pub bit_and-mask : (k a : ℕ) → bit_and a (2 ^ k - 1) ≡ a % 2 ^ k
bit_and-mask zero a = omega (arith, bit_and-zero_below a a (omega arith))
bit_and-mask (suc k) a =
    lowest_digit a (2 ^ suc k - 1)
    ∙ (ap (λ b. bit_and (a / 2) b * 2 + min (a % 2) ((2 ^ suc k - 1) % 2)) {x = (2 ^ suc k - 1) / 2}
          {y = 2 ^ k - 1} (omega (arith, pow-pos k))
        ∙ (omega (arith, bit_and-mask k (a / 2), mod-double a (2 ^ k) (pow-pos k), pow-pos k)
            ∙ ap (λ p. a % p) {x = 2 ^ k * 2} {y = 2 ^ suc k} (omega arith)))

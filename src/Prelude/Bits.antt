-- ===== src/Prelude/Bits.antt =====
-- The binary digits of a number, and what `|` and `&` with a power of two do to them.
use Prim.Native.Nat.{
  ℕ, zero, suc, ◌+◌, ◌*◌, ◌/◌, ◌%◌, ◌^◌, ◌≤◌, min, max, bit_and, bit_or, digits, bit_and-bitwise,
  bit_or-bitwise,
}
use mathlib.Core.Path.{◌≡◌, refl, ap, ◌∙◌}
use mathlib.Core.Logic.{◌≢◌}
use native.Mathlib.Omega.{arith}

-- The digit at place `k`.
unfoldable pub bit : ℕ → ℕ → ℕ
bit zero a = a % 2
bit (suc k) a = bit k (a / 2)

-- An operation on digits, from the recursion that it is defined by: digits beyond those of the first
-- number are the same as a digit zero of it.
module _ (z : ℕ → ℕ) (f : ℕ → ℕ → ℕ) (beyond : (b : ℕ) → z b ≡ z (b / 2) * 2 + f 0 (b % 2)) where
  enough : (n m a b : ℕ) → a ≤ n → a ≤ m → digits z f n a b ≡ digits z f m a b
  enough zero zero a b p q = refl
  enough zero (suc m) zero b p q = refl
  enough zero (suc m) (suc a) b p q = absurd (omega arith)
  enough (suc n) zero zero b p q = refl
  enough (suc n) zero (suc a) b p q = absurd (omega arith)
  enough (suc n) (suc m) zero b p q = refl
  enough (suc n) (suc m) (suc a) b p q =
      ap (λ d. d * 2 + f (suc a % 2) (b % 2))
        (enough n m (suc a / 2) (b / 2) (omega arith) (omega arith))

  lowest : (a b : ℕ) → digits z f a a b ≡ digits z f (a / 2) (a / 2) (b / 2) * 2 + f (a % 2) (b % 2)
  lowest zero b = beyond b
  lowest (suc a) b =
      ap (λ d. d * 2 + f (suc a % 2) (b % 2))
        (enough a (suc a / 2) (suc a / 2) (b / 2) (omega arith) (omega arith))

bit_or_lowest : (a b : ℕ) → bit_or a b ≡ bit_or (a / 2) (b / 2) * 2 + max (a % 2) (b % 2)
bit_or_lowest a b = omega (
  arith,
  bit_or-bitwise a b,
  bit_or-bitwise (a / 2) (b / 2),
  lowest (λ c. c) max (λ c. omega arith) a b,
)

bit_and_lowest : (a b : ℕ) → bit_and a b ≡ bit_and (a / 2) (b / 2) * 2 + min (a % 2) (b % 2)
bit_and_lowest a b = omega (
  arith,
  bit_and-bitwise a b,
  bit_and-bitwise (a / 2) (b / 2),
  lowest (λ c. zero) min (λ c. omega arith) a b,
)

pub bit-bit_or : (k a b : ℕ) → bit k (bit_or a b) ≡ max (bit k a) (bit k b)
unfolding bit
bit-bit_or zero a b = omega (arith, bit_or_lowest a b)
bit-bit_or (suc k) a b =
    ap (bit k) (omega (arith, bit_or_lowest a b)) ∙ bit-bit_or k (a / 2) (b / 2)

bit_and-zero : (n a : ℕ) → a ≤ n → bit_and a 0 ≡ 0
bit_and-zero n zero h = refl
bit_and-zero zero (suc a) h = absurd (omega arith)
bit_and-zero (suc n) (suc a) h =
    omega (arith, bit_and_lowest (suc a) 0, bit_and-zero n (suc a / 2) (omega arith))

pub power_suc : (k : ℕ) → 2 ^ suc k ≡ 2 * 2 ^ k
power_suc k = omega arith

doubled : (x p q m : ℕ) → q ≡ 2 * p → x * p * 2 + min m (q % 2) ≡ x * q
doubled x p q m e = omega (arith, e, ap (λ (t : ℕ). x * t) e)

pub bit_and_power : (k a : ℕ) → bit_and a (2 ^ k) ≡ bit k a * 2 ^ k
unfolding bit
bit_and_power zero a = omega (arith, bit_and_lowest a 1, bit_and-zero (a / 2) (a / 2) (omega arith))
bit_and_power (suc k) a =
    bit_and_lowest a (2 ^ suc k)
    ∙ ap (λ d. d * 2 + min (a % 2) (2 ^ suc k % 2))
        (ap (bit_and (a / 2)) (omega (arith, power_suc k)) ∙ bit_and_power k (a / 2))
    ∙ doubled (bit k (a / 2)) (2 ^ k) (2 ^ suc k) (a % 2) (power_suc k)

pub bit-zero : (k : ℕ) → bit k 0 ≡ 0
unfolding bit
bit-zero zero = refl
bit-zero (suc k) = bit-zero k

pub bit-power_self : (k : ℕ) → bit k (2 ^ k) ≡ 1
unfolding bit
bit-power_self zero = refl
bit-power_self (suc k) = ap (bit k) (omega (arith, power_suc k)) ∙ bit-power_self k

pub bit-power_other : (k j : ℕ) → k ≢ j → bit k (2 ^ j) ≡ 0
unfolding bit
bit-power_other zero zero n = absurd (n refl)
bit-power_other zero (suc j) n = omega (arith, power_suc j)
bit-power_other (suc k) zero n = bit-zero k
bit-power_other (suc k) (suc j) n =
    ap (bit k) (omega (arith, power_suc j)) ∙ bit-power_other k j (λ e. n (ap suc e))

-- ===== src/Base/Bits.antt =====
-- `^` of Python on non-negative numbers, and `int.bit_length`.
use Prim.Native.Nat.{digits, differ, bit_xor, bit_xor-bitwise}
use Prim.Native.Nat.{ℕ, zero, suc, ◌+◌, ◌*◌, ◌/◌, ◌%◌, ◌^◌, ◌-◌, ◌≤◌, ◌<◌}
use mathlib.Core.Path.{◌≡◌, refl, sym}
use native.Mathlib.Omega.{arith}
use native.Mathlib.Nat.{pow-suc}
use anp_edge_swarm.Base.Tests.{eqb, if◌then◌else◌}

-- n.bit_length(): the digits of `n`, counted. The fuel bounds them.
unfoldable pub bit_length_from : ℕ → ℕ → ℕ
bit_length_from zero n = 0
bit_length_from (suc fuel) n =
    let rest = suc (bit_length_from fuel (n / 2)) in if eqb n 0 then 0 else rest

unfoldable pub bit_length : ℕ → ℕ
unfolding bit_length_from
bit_length n = bit_length_from n n

bit_length_from-le : (fuel k n : ℕ) → n < 2 ^ k → bit_length_from fuel n ≤ k
unfolding bit_length_from
bit_length_from-le zero k n h = omega arith
bit_length_from-le (suc fuel) zero n h = ground arith
bit_length_from-le (suc fuel) (suc k) n h =
    ground (arith, pow-suc 2 k, bit_length_from-le fuel k (n / 2) (omega (arith, pow-suc 2 k)))

pub bit_length-le : (k n : ℕ) → n < 2 ^ k → bit_length n ≤ k
unfolding bit_length
bit_length-le k n h = bit_length_from-le n k n h

half_bounds :
    (l n : ℕ)
    → (2 ^ (l - 1) ≤ n / 2) × (n / 2 < 2 ^ l) × (0 < l)
    → (2 ^ (suc l - 1) ≤ n) × (n < 2 ^ suc l) × (0 < suc l)
half_bounds zero n h = absurd (omega arith)
half_bounds (suc l) n h =
    (ground (arith, pow-suc 2 l, h.0), omega (arith, h.1, pow-suc 2 (suc l)), omega arith)

bit_length_from_step :
    (fuel n : ℕ) → 0 < n → bit_length_from (suc fuel) n ≡ suc (bit_length_from fuel (n / 2))
unfolding bit_length_from
bit_length_from_step fuel n h = ground arith

bit_length_from_bounds :
    (fuel n : ℕ)
    → n ≤ fuel
    → 0 < n
    → (2 ^ (bit_length_from fuel n - 1) ≤ n)
      × (n < 2 ^ bit_length_from fuel n)
      × (0 < bit_length_from fuel n)
unfolding bit_length_from
bit_length_from_bounds zero n h pos = absurd (omega arith)
bit_length_from_bounds (suc fuel) zero h pos = elim pos [ ]
bit_length_from_bounds (suc zero) (suc zero) h pos = (omega arith, omega arith, omega arith)
bit_length_from_bounds (suc (suc fuel)) (suc zero) h pos = (omega arith, omega arith, omega arith)
bit_length_from_bounds (suc fuel) (suc (suc n)) h pos =
    rw (bit_length_from_step fuel (suc (suc n)) pos) (
      half_bounds (bit_length_from fuel (suc (suc n) / 2)) (suc (suc n))
        (bit_length_from_bounds fuel (suc (suc n) / 2) (omega arith) (omega arith)))

-- A positive number lies between the powers of two at its bit length.
pub bit_length_bounds :
    (n : ℕ) → 0 < n → (2 ^ (bit_length n - 1) ≤ n) × (n < 2 ^ bit_length n) × (0 < bit_length n)
unfolding bit_length
bit_length_bounds n h = bit_length_from_bounds n n (omega arith) h

xor_digits_fuel :
    (n m a b : ℕ) → a ≤ n → a ≤ m → digits (λ y. y) differ n a b ≡ digits (λ y. y) differ m a b
xor_digits_fuel zero zero a b p q = refl
xor_digits_fuel zero (suc m) zero b p q = refl
xor_digits_fuel zero (suc m) (suc a) b p q = absurd (omega arith)
xor_digits_fuel (suc n) zero zero b p q = refl
xor_digits_fuel (suc n) zero (suc a) b p q = absurd (omega arith)
xor_digits_fuel (suc n) (suc m) zero b p q = refl
xor_digits_fuel (suc n) (suc m) (suc a) b p q =
    rw (xor_digits_fuel n m (suc a / 2) (b / 2) (omega arith) (omega arith))

pub bit_xor_step : (a b : ℕ) → bit_xor a b ≡ bit_xor (a / 2) (b / 2) * 2 + differ (a % 2) (b % 2)
bit_xor_step zero b = simp bit_xor-bitwise (omega arith)
bit_xor_step (suc a) b =
    simp bit_xor-bitwise
      (omega (arith, xor_digits_fuel a (suc a / 2) (suc a / 2) (b / 2) (omega arith) (omega arith)))

differ-lt-two : (a b : ℕ) → a < 2 → b < 2 → differ a b < 2
differ-lt-two zero b p q = q
differ-lt-two (suc zero) zero p q = omega arith
differ-lt-two (suc zero) (suc zero) p q = omega arith
differ-lt-two (suc zero) (suc (suc b)) p q = absurd (omega arith)
differ-lt-two (suc (suc a)) b p q = absurd (omega arith)

differ-eq-zero : (a b : ℕ) → a < 2 → b < 2 → differ a b ≡ 0 → a ≡ b
differ-eq-zero zero b p q e = sym e
differ-eq-zero (suc zero) zero p q e = absurd (omega arith)
differ-eq-zero (suc zero) (suc zero) p q e = refl
differ-eq-zero (suc zero) (suc (suc b)) p q e = absurd (omega arith)
differ-eq-zero (suc (suc a)) b p q e = absurd (omega arith)

-- Numbers of `k` bits have an exclusive or of `k` bits.
pub bit_xor-lt : (k a b : ℕ) → a < 2 ^ k → b < 2 ^ k → bit_xor a b < 2 ^ k
bit_xor-lt zero zero zero p q = omega arith
bit_xor-lt zero zero (suc b) p q = absurd (omega arith)
bit_xor-lt zero (suc a) b p q = absurd (omega arith)
bit_xor-lt (suc k) a b p q = omega (
  arith,
  bit_xor_step a b,
  pow-suc 2 k,
  bit_xor-lt k (a / 2) (b / 2) (omega (arith, pow-suc 2 k)) (omega (arith, pow-suc 2 k)),
  differ-lt-two (a % 2) (b % 2) (omega arith) (omega arith),
)

-- Only equal numbers have the exclusive or 0.
pub bit_xor-eq-zero : (k a b : ℕ) → a < 2 ^ k → b < 2 ^ k → bit_xor a b ≡ 0 → a ≡ b
bit_xor-eq-zero zero a b p q e = omega arith
bit_xor-eq-zero (suc k) a b p q e = omega (
  arith,
  bit_xor_step a b,
  bit_xor-eq-zero k (a / 2) (b / 2) (omega (arith, pow-suc 2 k)) (omega (arith, pow-suc 2 k))
      (omega (arith, bit_xor_step a b)),
  differ-eq-zero (a % 2) (b % 2) (omega arith) (omega arith) (omega (arith, bit_xor_step a b)),
)

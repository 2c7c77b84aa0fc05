-- ===== src/Base/Bits.antt =====
-- `|` of two numbers whose bits do not meet is their sum.
use Prim.Native.Nat.{digits, bit_or-bitwise, bit_and-bitwise}
use native.Mathlib.Nat.{pow-suc, le_refl}
use odirion_mmoserver.Base.{
  ℕ, zero, suc, ◌+◌, ◌*◌, ◌/◌, ◌%◌, ◌^◌, ◌≤◌, ◌<◌, ◌≡◌, refl, ap, max, min, bit_or, bit_and, arith,
}

-- More fuel than the first number changes nothing.
digits-enough :
    (z : ℕ → ℕ) (f : ℕ → ℕ → ℕ) (more enough a b : ℕ)
    → a ≤ enough
    → enough ≤ more
    → digits z f more a b ≡ digits z f enough a b
digits-enough z f zero zero a b p q = refl
digits-enough z f zero (suc e) a b p q = absurd (omega arith)
digits-enough z f (suc m) zero zero b p q = refl
digits-enough z f (suc m) zero (suc a) b p q = absurd (omega arith)
digits-enough z f (suc m) (suc e) zero b p q = refl
digits-enough z f (suc m) (suc e) (suc a) b p q =
    rw (digits-enough z f m e (suc a / 2) (b / 2) (omega arith) (omega arith))

bit_or_digit : (a b : ℕ) → bit_or a b ≡ bit_or (a / 2) (b / 2) * 2 + max (a % 2) (b % 2)
bit_or_digit zero b = simp bit_or-bitwise (omega arith)
bit_or_digit (suc a) b =
    simp bit_or-bitwise
      (rw (digits-enough (λ y. y) max a (suc a / 2) (suc a / 2) (b / 2) (le_refl _) (omega arith)))

zero-bit_or : (b : ℕ) → bit_or 0 b ≡ b
zero-bit_or b = bit_or-bitwise 0 b

double_pow : (hi k : ℕ) → hi * 2 ^ suc k ≡ 2 * (hi * 2 ^ k)
double_pow hi k = omega (arith, ap (λ (t : ℕ). hi * t) (pow-suc 2 k))

pub bit_or-shifted : (k lo hi : ℕ) → lo < 2 ^ k → bit_or lo (hi * 2 ^ k) ≡ lo + hi * 2 ^ k
bit_or-shifted zero lo hi h = ground (arith, zero-bit_or hi)
bit_or-shifted (suc k) lo hi h = ground (
  arith,
  bit_or_digit lo (hi * 2 ^ suc k),
  double_pow hi k,
  pow-suc 2 k,
  bit_or-shifted k (lo / 2) hi,
)

bit_or-zero : (fuel a : ℕ) → a ≤ fuel → bit_or a 0 ≡ a
bit_or-zero fuel zero h = refl
bit_or-zero zero (suc a) h = absurd (omega arith)
bit_or-zero (suc fuel) (suc a) h =
    omega (arith, bit_or_digit (suc a) 0, bit_or-zero fuel (suc a / 2) (omega arith))

pub shifted-bit_or : (k hi lo : ℕ) → lo < 2 ^ k → bit_or (hi * 2 ^ k) lo ≡ lo + hi * 2 ^ k
shifted-bit_or zero hi lo h = ground (arith, bit_or-zero hi hi (le_refl _))
shifted-bit_or (suc k) hi lo h = ground (
  arith,
  bit_or_digit (hi * 2 ^ suc k) lo,
  double_pow hi k,
  pow-suc 2 k,
  shifted-bit_or k hi (lo / 2),
)

bit_and_digit : (a b : ℕ) → bit_and a b ≡ bit_and (a / 2) (b / 2) * 2 + min (a % 2) (b % 2)
bit_and_digit zero b = simp bit_and-bitwise (omega arith)
bit_and_digit (suc a) b =
    simp bit_and-bitwise
      (rw (digits-enough (λ y. 0) min a (suc a / 2) (suc a / 2) (b / 2) (le_refl _) (omega arith)))

bit_and-zero : (fuel a : ℕ) → a ≤ fuel → bit_and a 0 ≡ 0
bit_and-zero fuel zero h = refl
bit_and-zero zero (suc a) h = absurd (omega arith)
bit_and-zero (suc fuel) (suc a) h =
    omega (arith, bit_and_digit (suc a) 0, bit_and-zero fuel (suc a / 2) (omega arith))

pub bit_and-seven : (a : ℕ) → bit_and a 7 ≡ a % 8
bit_and-seven a = omega (
  arith,
  bit_and_digit a 7,
  bit_and_digit (a / 2) 3,
  bit_and_digit (a / 2 / 2) 1,
  bit_and-zero (a / 2 / 2 / 2) (a / 2 / 2 / 2) (le_refl _),
)

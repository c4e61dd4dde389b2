-- ===== src/Base/Bits.antt =====
-- `|` of words that share no digit is a sum, and `&` with the `k` lowest bits is a remainder.
use Prim.Native.Nat.{
  ℕ, zero, suc, ◌+◌, ◌-◌, ◌*◌, ◌/◌, ◌%◌, ◌^◌, ◌≤◌, ◌<◌, min, max, digits, bitwise, bit_and, bit_or,
  bit_and-bitwise, bit_or-bitwise,
}
use mathlib.Core.Path.{◌≡◌, refl, ap}
use native.Mathlib.Nat.{pow-suc, one-le-pow}
use native.Mathlib.Omega.{arith}

-- The recursion on digits gives the same with any fuel from its first number on.
module _ (z : ℕ → ℕ) (f : ℕ → ℕ → ℕ) where
  same_digits : (n m c d : ℕ) → c ≤ n → c ≤ m → digits z f n c d ≡ digits z f m c d
  same_digits zero zero c d p q = refl
  same_digits zero (suc m) zero d p q = refl
  same_digits (suc n) zero zero d p q = refl
  same_digits (suc n) (suc m) zero d p q = refl
  same_digits zero (suc m) (suc c) d p q = absurd (omega arith)
  same_digits (suc n) zero (suc c) d p q = absurd (omega arith)
  same_digits (suc n) (suc m) (suc c) d p q =
      ap (λ r. r * 2 + f (suc c % 2) (d % 2))
        (same_digits n m (suc c / 2) (d / 2) (omega arith) (omega arith))

  enough_digits : (fuel a b : ℕ) → a ≤ fuel → digits z f fuel a b ≡ bitwise z f a b
  enough_digits fuel a b h = same_digits fuel a a b h (omega arith)

or_digit : (a b : ℕ) → bit_or a b ≡ bit_or (a / 2) (b / 2) * 2 + max (a % 2) (b % 2)
or_digit zero b = simp bit_or-bitwise (omega arith)
or_digit (suc a) b = omega (
  arith,
  bit_or-bitwise (suc a) b,
  bit_or-bitwise (suc a / 2) (b / 2),
  enough_digits (λ y. y) max a (suc a / 2) (b / 2) (omega arith),
)

and_digit : (a b : ℕ) → bit_and a b ≡ bit_and (a / 2) (b / 2) * 2 + min (a % 2) (b % 2)
and_digit zero b = simp bit_and-bitwise (omega arith)
and_digit (suc a) b = omega (
  arith,
  bit_and-bitwise (suc a) b,
  bit_and-bitwise (suc a / 2) (b / 2),
  enough_digits (λ y. 0) min a (suc a / 2) (b / 2) (omega arith),
)

-- Nothing is added, and nothing is kept, by the word 0.
or_zero : (bound a : ℕ) → a ≤ bound → bit_or a 0 ≡ a
or_zero bound zero h = refl
or_zero zero (suc a) h = absurd (omega arith)
or_zero (suc bound) (suc a) h =
    omega (arith, or_digit (suc a) 0, or_zero bound (suc a / 2) (omega arith))

and_zero : (bound a : ℕ) → a ≤ bound → bit_and a 0 ≡ 0
and_zero bound zero h = refl
and_zero zero (suc a) h = absurd (omega arith)
and_zero (suc bound) (suc a) h =
    omega (arith, and_digit (suc a) 0, and_zero bound (suc a / 2) (omega arith))

pub bit_or-disjoint : (k hi lo : ℕ) → lo < 2 ^ k → bit_or (hi * 2 ^ k) lo ≡ hi * 2 ^ k + lo
bit_or-disjoint zero hi lo h = ground (arith, or_zero hi hi)
bit_or-disjoint (suc k) hi lo h = ground (
  arith,
  or_digit (hi * 2 ^ suc k) lo,
  ap (λ (t : ℕ). hi * t) (pow-suc 2 k),
  pow-suc 2 k,
  bit_or-disjoint k hi (lo / 2),
)

and_fields : (k hi lo : ℕ) → lo < 2 ^ k → bit_and (hi * 2 ^ k + lo) (2 ^ k - 1) ≡ lo
and_fields zero hi lo h = omega (arith, and_zero (hi * 1 + lo) (hi * 1 + lo))
and_fields (suc k) hi lo h = ground (
  arith,
  and_digit (hi * 2 ^ suc k + lo) (2 ^ suc k - 1),
  ap (λ (t : ℕ). hi * t) (pow-suc 2 k),
  pow-suc 2 k,
  and_fields k hi (lo / 2),
)

pub bit_and-low : (k a : ℕ) → bit_and a (2 ^ k - 1) ≡ a % 2 ^ k
bit_and-low k a = ground (arith, one-le-pow k 2, and_fields k (a / 2 ^ k) (a % 2 ^ k))

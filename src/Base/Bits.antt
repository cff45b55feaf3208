-- ===== src/Base/Bits.antt =====
-- `&` and `|` as arithmetic: a mask of low bits is a remainder, and `|` of disjoint fields a sum.
use Prim.Native.Nat.{
  ℕ, zero, suc, ◌+◌, ◌-◌, ◌*◌, ◌/◌, ◌%◌, ◌^◌, ◌≤◌, ◌<◌, min, max, bit_and, bit_or, digits,
  bit_and-bitwise, bit_or-bitwise,
}
use mathlib.Core.Path.{◌≡◌, refl, ap, sym, ◌∙◌}
use native.Mathlib.Nat.{
  pow-suc, one-le-pow, add-zero, zero-add, add-suc, add-mul-mod_self_left, mod-eq_of_lt,
  mod-add-div, mod-lt,
}
use native.Mathlib.Omega.{arith}
use solta.Base.Tests.{leb, if◌then◌else◌}

-- The fuel of the digit recursion does not matter once it reaches the first number.
digits_enough :
    (z : ℕ → ℕ) (f : ℕ → ℕ → ℕ) (n m a b : ℕ) → a ≤ n → a ≤ m → digits z f n a b ≡ digits z f m a b
digits_enough z f zero zero a b p q = refl
digits_enough z f zero (suc m) zero b p q = refl
digits_enough z f zero (suc m) (suc a) b p q = absurd (omega arith)
digits_enough z f (suc n) zero zero b p q = refl
digits_enough z f (suc n) zero (suc a) b p q = absurd (omega arith)
digits_enough z f (suc n) (suc m) zero b p q = refl
digits_enough z f (suc n) (suc m) (suc a) b p q =
    omega (arith, digits_enough z f n m (suc a / 2) (b / 2) (omega arith) (omega arith))

or_digit : (a b : ℕ) → bit_or a b ≡ bit_or (a / 2) (b / 2) * 2 + max (a % 2) (b % 2)
or_digit zero b = omega (arith, bit_or-bitwise 0 b, bit_or-bitwise 0 (b / 2))
or_digit (suc a) b = omega (
  arith,
  bit_or-bitwise (suc a) b,
  bit_or-bitwise (suc a / 2) (b / 2),
  digits_enough (λ y. y) max a (suc a / 2) (suc a / 2) (b / 2) (omega arith) (omega arith),
)

and_digit : (a b : ℕ) → bit_and a b ≡ bit_and (a / 2) (b / 2) * 2 + min (a % 2) (b % 2)
and_digit zero b = omega (arith, bit_and-bitwise 0 b, bit_and-bitwise 0 (b / 2))
and_digit (suc a) b = omega (
  arith,
  bit_and-bitwise (suc a) b,
  bit_and-bitwise (suc a / 2) (b / 2),
  digits_enough (λ y. zero) min a (suc a / 2) (suc a / 2) (b / 2) (omega arith) (omega arith),
)

or_zero_below : (n a : ℕ) → a ≤ n → bit_or a 0 ≡ a
or_zero_below n zero h = bit_or-bitwise 0 0
or_zero_below zero (suc a) h = absurd (omega arith)
or_zero_below (suc n) (suc a) h =
    omega (arith, or_digit (suc a) 0, or_zero_below n (suc a / 2) (omega arith))

and_zero_below : (n a : ℕ) → a ≤ n → bit_and a 0 ≡ 0
and_zero_below n zero h = bit_and-bitwise 0 0
and_zero_below zero (suc a) h = absurd (omega arith)
and_zero_below (suc n) (suc a) h =
    omega (arith, and_digit (suc a) 0, and_zero_below n (suc a / 2) (omega arith))

double_field : (q k : ℕ) → q * 2 ^ suc k ≡ 2 * (q * 2 ^ k)
double_field q k = omega (arith, ap (λ (t : ℕ). q * t) (pow-suc 2 k))

-- `r | (q << k)`, in either order of the operands, when `r` has no bit from bit `k` on.
pub bit_or_high : (k q r : ℕ) → r < 2 ^ k → bit_or r (q * 2 ^ k) ≡ r + q * 2 ^ k
bit_or_high zero q zero h = omega (arith, bit_or-bitwise 0 (q * 2 ^ 0))
bit_or_high zero q (suc r) h = absurd (omega arith)
bit_or_high (suc k) q r h = omega (
  arith,
  or_digit r (q * 2 ^ suc k),
  double_field q k,
  pow-suc 2 k,
  ap (λ t. bit_or (r / 2) t) (halved),
  bit_or_high k q (r / 2) (omega (arith, pow-suc 2 k)),
)
  where
    halved : q * 2 ^ suc k / 2 ≡ q * 2 ^ k
    halved = omega (arith, double_field q k)

pub bit_or_low : (k q r : ℕ) → r < 2 ^ k → bit_or (q * 2 ^ k) r ≡ q * 2 ^ k + r
bit_or_low zero q zero h = omega (arith, or_zero_below (q * 1) (q * 1) (omega arith))
bit_or_low zero q (suc r) h = absurd (omega arith)
bit_or_low (suc k) q r h = omega (
  arith,
  or_digit (q * 2 ^ suc k) r,
  double_field q k,
  pow-suc 2 k,
  ap (λ t. bit_or t (r / 2)) (halved),
  bit_or_low k q (r / 2) (omega (arith, pow-suc 2 k)),
)
  where
    halved : q * 2 ^ suc k / 2 ≡ q * 2 ^ k
    halved = omega (arith, double_field q k)

and_fields : (k q r : ℕ) → r < 2 ^ k → bit_and (q * 2 ^ k + r) (2 ^ k - 1) ≡ r
and_fields zero q r h = omega (arith, and_zero_below (q * 1 + r) (q * 1 + r) (omega arith))
and_fields (suc k) q r h = ground (
  arith,
  and_digit (q * 2 ^ suc k + r) (2 ^ suc k - 1),
  double_field q k,
  pow-suc 2 k,
  and_fields k q (r / 2) (omega (arith, pow-suc 2 k)),
)

-- `a & ((1 << k) - 1)`.
pub bit_and_low : (k a : ℕ) → bit_and a (2 ^ k - 1) ≡ a % 2 ^ k
bit_and_low k a = ground (arith, one-le-pow k 2 (omega arith), and_fields k (a / 2 ^ k) (a % 2 ^ k))

-- `a & 1`.
pub bit_and_one : (a : ℕ) → bit_and a 1 ≡ a % 2
bit_and_one a = bit_and_low 1 a

shift_and : (a n : ℕ) → bit_and a (n * 2) ≡ 2 * bit_and (a / 2) n
shift_and a n = omega (arith, and_digit a (n * 2), ap (λ t. bit_and (a / 2) t) halved)
  where
    halved : n * 2 / 2 ≡ n
    halved = omega arith

-- The bit `k` of a number that has no higher one.
and_top : (k a : ℕ) → a < 2 * 2 ^ k → bit_and a (2 ^ k) ≡ (if leb (2 ^ k) a then 2 ^ k else 0)
and_top zero a h = ground (arith, bit_and_one a)
and_top (suc k) a h =
    let below = and_top k (a / 2) (omega (arith, pow-suc 2 k)) in
    ap (λ t. bit_and a t) (pow-suc 2 k) ∙ shift_and a (2 ^ k) ∙ ground (arith, pow-suc 2 k, below)

-- `b & 0x80` on a byte: its top bit, at its place.
pub bit_and_top : (b : ℕ) → b < 256 → bit_and b 0x80 ≡ b / 128 * 128
bit_and_top b h = ground (arith, and_top 7 b h)

pub two_pow-add : (p d : ℕ) → 2 ^ (p + d) ≡ 2 ^ p * 2 ^ d
two_pow-add p zero = rw add-zero (omega arith)
two_pow-add p (suc d) = rw (add-suc p d) (
    omega (
      arith,
      pow-suc 2 (p + d),
      pow-suc 2 d,
      ap (λ (t : ℕ). 2 * t) (two_pow-add p d),
      ap (λ (t : ℕ). 2 ^ p * t) (pow-suc 2 d),
    ))

-- A field above `acc`, cut off at the width of the word.
cut_field : (p d acc g : ℕ) → acc < p → 0 < d → (acc + g * p) % (p * d) ≡ acc + g % d * p
cut_field p d acc g h pos =
    ap (λ (t : ℕ). t % (p * d)) split
    ∙ add-mul-mod_self_left (acc + g % d * p) (p * d) (g / d)
    ∙ mod-eq_of_lt fits
  where
    split : acc + g * p ≡ (acc + g % d * p) + p * d * (g / d)
    split = omega (arith, ap (λ (t : ℕ). t * p) (mod-add-div g d))

    fits : acc + g % d * p < p * d
    fits = grind (arith, mod-lt g pos)

-- `acc | (g << p)` in a word of `p + d` bits.
pub bit_or_field :
    (p d acc g : ℕ)
    → acc < 2 ^ p
    → bit_or acc (g * 2 ^ p % 2 ^ (p + d)) ≡ (acc + g * 2 ^ p) % 2 ^ (p + d)
bit_or_field p d acc g h =
    rw (two_pow-add p d, alone)
      (bit_or_high p (g % 2 ^ d) acc h
        ∙ sym (cut_field (2 ^ p) (2 ^ d) acc g h (one-le-pow d 2 (omega arith))))
  where
    alone : g * 2 ^ p % (2 ^ p * 2 ^ d) ≡ g % 2 ^ d * 2 ^ p
    alone = simp zero-add at (
        cut_field (2 ^ p) (2 ^ d) 0 g (one-le-pow p 2 (omega arith)) (one-le-pow d 2 (omega arith)))

-- `|` of two words is a word.
pub bit_or_lt : (k a b : ℕ) → a < 2 ^ k → b < 2 ^ k → bit_or a b < 2 ^ k
bit_or_lt zero zero zero h h' = omega (arith, bit_or-bitwise 0 0)
bit_or_lt zero zero (suc b) h h' = absurd (omega arith)
bit_or_lt zero (suc a) b h h' = absurd (omega arith)
bit_or_lt (suc k) a b h h' = omega (
  arith,
  pow-suc 2 k,
  or_digit a b,
  bit_or_lt k (a / 2) (b / 2) (omega (arith, pow-suc 2 k)) (omega (arith, pow-suc 2 k)),
)

-- ===== src/Base/Bits.antt =====
-- Flags in the low bits of a number.
use Prim.Native.Nat.{
  ℕ, zero, suc, ◌+◌, ◌*◌, ◌/◌, ◌%◌, ◌^◌, ◌≤◌, ◌<◌, min, max, bit_and, bit_or, digits,
  bit_and-bitwise, bit_or-bitwise,
}
use mathlib.Core.Path.{◌≡◌, refl, ap, ap₂, ◌∙◌}
use goatos.Base.Tests.{◌==◌, if◌then◌else◌}
use native.Mathlib.Omega.{arith}

-- More digits than the first number has make no difference.
digits_enough :
    (z : ℕ → ℕ) (f : ℕ → ℕ → ℕ) (n m a b : ℕ) → a ≤ n → a ≤ m → digits z f n a b ≡ digits z f m a b
digits_enough z f zero zero a b p q = refl
digits_enough z f zero (suc m) zero b p q = refl
digits_enough z f zero m (suc a) b p q = absurd (omega arith)
digits_enough z f (suc n) zero zero b p q = refl
digits_enough z f n zero (suc a) b p q = absurd (omega arith)
digits_enough z f (suc n) (suc m) zero b p q = refl
digits_enough z f (suc n) (suc m) (suc a) b p q =
    omega (arith, digits_enough z f n m (suc a / 2) (b / 2) (omega arith) (omega arith))

-- The lowest digit and the rest, for an operation that agrees with `z` on a first number that has run
-- out.
digits_step :
    (z : ℕ → ℕ) (f : ℕ → ℕ → ℕ)
    → ((b : ℕ) → z b ≡ z (b / 2) * 2 + f 0 (b % 2))
    → (a b : ℕ) → digits z f a a b ≡ digits z f (a / 2) (a / 2) (b / 2) * 2 + f (a % 2) (b % 2)
digits_step z f out zero b = out b
digits_step z f out (suc a) b =
    let trim = digits_enough z f a (suc a / 2) (suc a / 2) (b / 2) (omega arith) (omega arith) in
    ap (λ d. d * 2 + f (suc a % 2) (b % 2)) trim

or_step : (a b : ℕ) → bit_or a b ≡ bit_or (a / 2) (b / 2) * 2 + max (a % 2) (b % 2)
or_step a b = omega (
  arith,
  digits_step (λ c. c) max (λ c. omega arith) a b,
  bit_or-bitwise a b,
  bit_or-bitwise (a / 2) (b / 2),
)

and_step : (a b : ℕ) → bit_and a b ≡ bit_and (a / 2) (b / 2) * 2 + min (a % 2) (b % 2)
and_step a b = omega (
  arith,
  digits_step (λ c. 0) min (λ c. omega arith) a b,
  bit_and-bitwise a b,
  bit_and-bitwise (a / 2) (b / 2),
)

-- No bits set, or none asked for.
or_none : (bound a : ℕ) → a ≤ bound → bit_or a 0 ≡ a
or_none bound zero h = omega (arith, bit_or-bitwise 0 0)
or_none zero (suc a) h = absurd (omega arith)
or_none (suc bound) (suc a) h =
    omega (arith, or_step (suc a) 0, or_none bound (suc a / 2) (omega arith))

and_none : (bound a : ℕ) → a ≤ bound → bit_and a 0 ≡ 0
and_none bound zero h = omega (arith, bit_and-bitwise 0 0)
and_none zero (suc a) h = absurd (omega arith)
and_none (suc bound) (suc a) h =
    omega (arith, and_step (suc a) 0, and_none bound (suc a / 2) (omega arith))

-- Setting the two lowest bits of a multiple of 4 adds 3.
pub bit_or_three : (k : ℕ) → bit_or (k * 4) 3 ≡ k * 4 + 3
bit_or_three k = omega (
  arith,
  or_step (k * 4) 3,
  or_step (k * 4 / 2) 1,
  or_none (k * 4 / 2 / 2) (k * 4 / 2 / 2) (omega arith),
)

-- The lowest bit.
pub bit_and_lowest : (a : ℕ) → bit_and a 1 ≡ a % 2
bit_and_lowest a = omega (arith, and_step a 1, and_none (a / 2) (a / 2) (omega arith))

-- The bit number `k`.
abbrev pub bit_at : ℕ → ℕ → ℕ
bit_at a zero = a % 2
bit_at a (suc k) = bit_at (a / 2) k

power_two : (k : ℕ) → 2 ^ suc k ≡ 2 * 2 ^ k
power_two k = omega arith

-- A mask of one bit tests that bit.
pub bit_and_power : (k a : ℕ) → (bit_and a (2 ^ k) == 0) ≡ (bit_at a k == 0)
bit_and_power zero a = ap (λ x. x == 0) (bit_and_lowest a)
bit_and_power (suc k) a =
    ground (arith, power_two k, and_step a (2 ^ suc k), bit_and_power k (a / 2), half)
  where
    half : bit_and (a / 2) (2 ^ suc k / 2) ≡ bit_and (a / 2) (2 ^ k)
    half = ap (bit_and (a / 2)) (omega (arith, power_two k))

bit_or_half : (a b : ℕ) → bit_or a b / 2 ≡ bit_or (a / 2) (b / 2)
bit_or_half a b = omega (arith, or_step a b)

-- Setting a bit sets that bit and no other.
pub bit_at-bit_or : (i j a : ℕ) → bit_at (bit_or a (2 ^ i)) j ≡ (if i == j then 1 else bit_at a j)
bit_at-bit_or zero zero a = omega (arith, or_step a 1)
bit_at-bit_or zero (suc j) a =
    ap (λ x. bit_at x j) (bit_or_half a 1 ∙ or_none (a / 2) (a / 2) (omega arith)) ∙ ground arith
bit_at-bit_or (suc i) zero a = grind (arith, or_step a (2 ^ suc i), power_two i)
bit_at-bit_or (suc i) (suc j) a =
    ap (λ x. bit_at x j)
      (bit_or_half a (2 ^ suc i) ∙ ap (bit_or (a / 2)) (omega (arith, power_two i)))
    ∙ bit_at-bit_or i j (a / 2)
    ∙ ground arith

double : (b k : ℕ) → b * 2 ^ suc k ≡ b * 2 ^ k * 2
double b k = ap (λ p. b * p) (power_two k) ∙ reorder b (2 ^ k)
  where
    reorder : (x y : ℕ) → x * (2 * y) ≡ x * y * 2
    reorder x y = grind arith

-- A field above the bits of `a` adds to it.
pub bit_or_field : (k a b : ℕ) → a < 2 ^ k → bit_or a (b * 2 ^ k) ≡ a + b * 2 ^ k
bit_or_field zero a b lt =
    ap₂ bit_or (zero_of lt) (times_one b) ∙ bit_or-bitwise 0 b ∙ omega (arith, zero_of lt)
  where
    zero_of : a < 1 → a ≡ 0
    zero_of h = omega arith

    times_one : (n : ℕ) → n * 1 ≡ n
    times_one n = omega arith
bit_or_field (suc k) a b lt =
    let twice : b * 2 ^ suc k ≡ b * 2 ^ k * 2 = double b k in
    or_step a (b * 2 ^ suc k)
    ∙ omega (
      arith,
      twice,
      power_two k,
      ap (bit_or (a / 2)) (halve (b * 2 ^ suc k) (b * 2 ^ k) twice),
      bit_or_field k (a / 2) b (omega (arith, lt, power_two k)),
    )
  where
    halve : (m n : ℕ) → m ≡ n * 2 → m / 2 ≡ n
    halve m n e = omega arith

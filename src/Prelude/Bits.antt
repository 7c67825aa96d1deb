-- ===== src/Prelude/Bits.antt =====
-- `&` and `|` as arithmetic: the equations for the lowest digit, masks, and fields that do not
-- overlap.
use Prim.Native.Nat.{ℕ, zero, suc, ◌+◌, ◌*◌, ◌/◌, ◌%◌, ◌^◌, ◌≤◌, ◌<◌, min, max}
use Prim.Native.Nat.{bit_and, bit_or, digits, bit_and-bitwise, bit_or-bitwise}
use mathlib.Core.Path.{◌≡◌, refl, ap}
use native.Mathlib.Nat.{pow-suc}
use native.Mathlib.Omega.{arith}

-- The recursion on digits that the native operations mean does not depend on its fuel.
module _ (z : ℕ → ℕ) (f : ℕ → ℕ → ℕ) where
  digits_enough : (n m a b : ℕ) → a ≤ n → a ≤ m → digits z f n a b ≡ digits z f m a b
  digits_enough zero zero a b p q = refl
  digits_enough zero (suc m) zero b p q = refl
  digits_enough zero (suc m) (suc a) b p q = absurd (omega arith)
  digits_enough (suc n) zero zero b p q = refl
  digits_enough (suc n) zero (suc a) b p q = absurd (omega arith)
  digits_enough (suc n) (suc m) zero b p q = refl
  digits_enough (suc n) (suc m) (suc a) b p q =
      omega (arith, digits_enough n m (suc a / 2) (b / 2) (omega arith) (omega arith))

zero-and : (b : ℕ) → bit_and 0 b ≡ 0
zero-and b = bit_and-bitwise 0 b

pub zero-or : (b : ℕ) → bit_or 0 b ≡ b
zero-or b = bit_or-bitwise 0 b

pub and_digit : (a b : ℕ) → bit_and a b ≡ bit_and (a / 2) (b / 2) * 2 + min (a % 2) (b % 2)
and_digit zero b = omega (arith, zero-and b, zero-and (b / 2))
and_digit (suc a) b = omega (
  arith,
  bit_and-bitwise (suc a) b,
  bit_and-bitwise (suc a / 2) (b / 2),
  digits_enough (λ y. 0) min a (suc a / 2) (suc a / 2) (b / 2) (omega arith) (omega arith),
)

pub or_digit : (a b : ℕ) → bit_or a b ≡ bit_or (a / 2) (b / 2) * 2 + max (a % 2) (b % 2)
or_digit zero b = omega (arith, zero-or b, zero-or (b / 2))
or_digit (suc a) b = omega (
  arith,
  bit_or-bitwise (suc a) b,
  bit_or-bitwise (suc a / 2) (b / 2),
  digits_enough (λ y. y) max a (suc a / 2) (suc a / 2) (b / 2) (omega arith) (omega arith),
)

and_zero_below : (n a : ℕ) → a ≤ n → bit_and a 0 ≡ 0
and_zero_below n zero h = refl
and_zero_below zero (suc a) h = absurd (omega arith)
and_zero_below (suc n) (suc a) h =
    omega (arith, and_digit (suc a) 0, and_zero_below n (suc a / 2) (omega arith))

pub and-zero : (a : ℕ) → bit_and a 0 ≡ 0
and-zero a = and_zero_below a a (omega arith)

or_zero_below : (n a : ℕ) → a ≤ n → bit_or a 0 ≡ a
or_zero_below n zero h = refl
or_zero_below zero (suc a) h = absurd (omega arith)
or_zero_below (suc n) (suc a) h =
    omega (arith, or_digit (suc a) 0, or_zero_below n (suc a / 2) (omega arith))

pub or-zero : (a : ℕ) → bit_or a 0 ≡ a
or-zero a = or_zero_below a a (omega arith)

-- The masks, a digit at a time.
and_1 : (a : ℕ) → bit_and a 1 ≡ a % 2
and_1 a = omega (arith, and_digit a 1, and-zero (a / 2))

and_3 : (a : ℕ) → bit_and a 3 ≡ a % 4
and_3 a = omega (arith, and_digit a 3, and_1 (a / 2))

and_7 : (a : ℕ) → bit_and a 7 ≡ a % 8
and_7 a = omega (arith, and_digit a 7, and_3 (a / 2))

and_15 : (a : ℕ) → bit_and a 15 ≡ a % 16
and_15 a = omega (arith, and_digit a 15, and_7 (a / 2))

and_31 : (a : ℕ) → bit_and a 31 ≡ a % 32
and_31 a = omega (arith, and_digit a 31, and_15 (a / 2))

and_63 : (a : ℕ) → bit_and a 63 ≡ a % 64
and_63 a = omega (arith, and_digit a 63, and_31 (a / 2))

pub and_127 : (a : ℕ) → bit_and a 127 ≡ a % 128
and_127 a = omega (arith, and_digit a 127, and_63 (a / 2))

pub and_255 : (a : ℕ) → bit_and a 255 ≡ a % 256
and_255 a = omega (arith, and_digit a 255, and_127 (a / 2))

or_1 : (a : ℕ) → bit_or a 1 ≡ a / 2 * 2 + 1
or_1 a = omega (arith, or_digit a 1, or-zero (a / 2))

or_2 : (a : ℕ) → bit_or a 2 ≡ a / 4 * 4 + 2 + a % 2
or_2 a = omega (arith, or_digit a 2, or_1 (a / 2))

or_4 : (a : ℕ) → bit_or a 4 ≡ a / 8 * 8 + 4 + a % 4
or_4 a = omega (arith, or_digit a 4, or_2 (a / 2))

or_8 : (a : ℕ) → bit_or a 8 ≡ a / 16 * 16 + 8 + a % 8
or_8 a = omega (arith, or_digit a 8, or_4 (a / 2))

or_16 : (a : ℕ) → bit_or a 16 ≡ a / 32 * 32 + 16 + a % 16
or_16 a = omega (arith, or_digit a 16, or_8 (a / 2))

or_32 : (a : ℕ) → bit_or a 32 ≡ a / 64 * 64 + 32 + a % 32
or_32 a = omega (arith, or_digit a 32, or_16 (a / 2))

or_64 : (a : ℕ) → bit_or a 64 ≡ a / 128 * 128 + 64 + a % 64
or_64 a = omega (arith, or_digit a 64, or_32 (a / 2))

-- `v | 128` sets the bit with the value 128.
pub or_128 : (a : ℕ) → bit_or a 128 ≡ a / 256 * 256 + 128 + a % 128
or_128 a = omega (arith, or_digit a 128, or_64 (a / 2))

and_bit_2 : (a : ℕ) → bit_and a 2 ≡ a / 2 % 2 * 2
and_bit_2 a = omega (arith, and_digit a 2, and_1 (a / 2))

and_bit_4 : (a : ℕ) → bit_and a 4 ≡ a / 4 % 2 * 4
and_bit_4 a = omega (arith, and_digit a 4, and_bit_2 (a / 2))

and_bit_8 : (a : ℕ) → bit_and a 8 ≡ a / 8 % 2 * 8
and_bit_8 a = omega (arith, and_digit a 8, and_bit_4 (a / 2))

and_bit_16 : (a : ℕ) → bit_and a 16 ≡ a / 16 % 2 * 16
and_bit_16 a = omega (arith, and_digit a 16, and_bit_8 (a / 2))

and_bit_32 : (a : ℕ) → bit_and a 32 ≡ a / 32 % 2 * 32
and_bit_32 a = omega (arith, and_digit a 32, and_bit_16 (a / 2))

and_bit_64 : (a : ℕ) → bit_and a 64 ≡ a / 64 % 2 * 64
and_bit_64 a = omega (arith, and_digit a 64, and_bit_32 (a / 2))

pub and_bit_128 : (a : ℕ) → bit_and a 128 ≡ a / 128 % 2 * 128
and_bit_128 a = omega (arith, and_digit a 128, and_bit_64 (a / 2))

pub double_pow : (q k : ℕ) → q * 2 ^ suc k ≡ 2 * (q * 2 ^ k)
double_pow q k = omega (arith, ap (λ (t : ℕ). q * t) (pow-suc 2 k))

-- `r | (q << k)` is a sum when `r` fits `k` bits.
pub or_high : (k q r : ℕ) → r < 2 ^ k → bit_or r (q * 2 ^ k) ≡ r + q * 2 ^ k
or_high zero q zero h = omega (arith, zero-or (q * 2 ^ 0))
or_high zero q (suc r) h = absurd (omega arith)
or_high (suc k) q r h = ground (
  arith,
  or_digit r (q * 2 ^ suc k),
  double_pow q k,
  pow-suc 2 k,
  or_high k q (r / 2) (omega (arith, pow-suc 2 k)),
)

-- `(q << k) | r`, the other way round.
pub or_low : (k q r : ℕ) → r < 2 ^ k → bit_or (q * 2 ^ k) r ≡ q * 2 ^ k + r
or_low zero q zero h = omega (arith, or-zero (q * 2 ^ 0))
or_low zero q (suc r) h = absurd (omega arith)
or_low (suc k) q r h = ground (
  arith,
  or_digit (q * 2 ^ suc k) r,
  double_pow q k,
  pow-suc 2 k,
  or_low k q (r / 2) (omega (arith, pow-suc 2 k)),
)

-- `|` needs no more bits than its arguments.
pub or-lt : (k a b : ℕ) → a < 2 ^ k → b < 2 ^ k → bit_or a b < 2 ^ k
or-lt zero zero zero h g = omega (arith, zero-or 0)
or-lt zero zero (suc b) h g = absurd (omega arith)
or-lt zero (suc a) b h g = absurd (omega arith)
or-lt (suc k) a b h g = omega (
  arith,
  or_digit a b,
  pow-suc 2 k,
  or-lt k (a / 2) (b / 2) (omega (arith, pow-suc 2 k)) (omega (arith, pow-suc 2 k)),
)

-- One bit of a number, from the lowest on.
unfoldable pub bit : ℕ → ℕ → ℕ
bit a zero = a % 2
bit a (suc j) = bit (a / 2) j

pub bit-or : (j a b : ℕ) → bit (bit_or a b) j ≡ max (bit a j) (bit b j)
unfolding bit
bit-or zero a b = omega (arith, or_digit a b)
bit-or (suc j) a b =
    let halves : bit_or a b / 2 ≡ bit_or (a / 2) (b / 2) = omega (arith, or_digit a b) in
    rw halves (bit-or j (a / 2) (b / 2))

pub bit-pow : (j : ℕ) → bit (2 ^ j) j ≡ 1
unfolding bit
bit-pow zero = refl
bit-pow (suc j) =
    let half : 2 ^ suc j / 2 ≡ 2 ^ j = omega (arith, pow-suc 2 j) in rw half (bit-pow j)

pub and-pow_zero : (j a : ℕ) → bit_and a (2 ^ j) ≡ 0 → bit a j ≡ 0
unfolding bit
and-pow_zero zero a h = omega (arith, and_digit a 1, and-zero (a / 2), h)
and-pow_zero (suc j) a h =
    let half : 2 ^ suc j / 2 ≡ 2 ^ j = omega (arith, pow-suc 2 j) in
    let digit = and_digit a (2 ^ suc j) in
    and-pow_zero j (a / 2) (omega (arith, rw half at digit, h))

pub bit-zero : (j : ℕ) → bit 0 j ≡ 0
unfolding bit
bit-zero zero = refl
bit-zero (suc j) = bit-zero j

pub bit-le : (j a : ℕ) → bit a j ≤ 1
unfolding bit
bit-le zero a = omega arith
bit-le (suc j) a = bit-le j (a / 2)

or_ge_below : (n a b : ℕ) → a ≤ n → (a ≤ bit_or a b) × (b ≤ bit_or a b)
or_ge_below n zero b h = omega (arith, zero-or b)
or_ge_below zero (suc a) b h = absurd (omega arith)
or_ge_below (suc n) (suc a) b h =
    omega (arith, or_digit (suc a) b, or_ge_below n (suc a / 2) (b / 2) (omega arith))

pub or-ge : (a b : ℕ) → (a ≤ bit_or a b) × (b ≤ bit_or a b)
or-ge a b = or_ge_below a a b (omega arith)

-- ===== src/Common/Bits.antt =====
-- The bit operations of C at variables: `|` of fields that do not overlap is a sum, `&` with a
-- mask of `n` ones at bit `k` is a remainder, and a single bit of a byte is a digit.
use Prim.Native.Nat.{ℕ, zero, suc, ◌+◌, ◌-◌, ◌*◌, ◌/◌, ◌%◌, ◌^◌, ◌≤◌, ◌<◌, min, max}
use Prim.Native.Nat.{bit_and, bit_or, digits, bitwise, bit_and-bitwise, bit_or-bitwise}
use mathlib.Core.Path.{◌≡◌, refl, ap}
use mathlib.Core.Bool.{Bool, true, ◌&&◌}
use native.Mathlib.Omega.{arith}
use native.Mathlib.Nat.{le_refl, pow-suc, one-le-pow}
use jcu_dparm.Common.Tests.{◌==◌, ==_iff}

-- One digit of a bitwise operation, with its fuel dropped.
module _ (z : ℕ → ℕ) (f : ℕ → ℕ → ℕ) where
  digits-fuel_eq : (n m a b : ℕ) → a ≤ n → a ≤ m → digits z f n a b ≡ digits z f m a b
  digits-fuel_eq zero zero a b p q = refl
  digits-fuel_eq zero (suc m) zero b p q = refl
  digits-fuel_eq zero (suc m) (suc a) b p q = absurd (omega arith)
  digits-fuel_eq (suc n) zero zero b p q = refl
  digits-fuel_eq (suc n) zero (suc a) b p q = absurd (omega arith)
  digits-fuel_eq (suc n) (suc m) zero b p q = refl
  digits-fuel_eq (suc n) (suc m) (suc a) b p q =
      rw (digits-fuel_eq n m (suc a / 2) (b / 2) (omega arith) (omega arith))

  bitwise_digit :
      (a b : ℕ)
      → bitwise z f (suc a) b ≡ bitwise z f (suc a / 2) (b / 2) * 2 + f (suc a % 2) (b % 2)
  bitwise_digit a b =
      omega (arith, digits-fuel_eq a (suc a / 2) (suc a / 2) (b / 2) (omega arith) (le_refl _))

bit_or_digit : (a b : ℕ) → bit_or a b ≡ bit_or (a / 2) (b / 2) * 2 + max (a % 2) (b % 2)
bit_or_digit zero b = simp bit_or-bitwise (omega arith)
bit_or_digit (suc a) b = simp bit_or-bitwise (bitwise_digit (λ y. y) max a b)

bit_and_digit : (a b : ℕ) → bit_and a b ≡ bit_and (a / 2) (b / 2) * 2 + min (a % 2) (b % 2)
bit_and_digit zero b = simp bit_and-bitwise (omega arith)
bit_and_digit (suc a) b = simp bit_and-bitwise (bitwise_digit (λ y. 0) min a b)

-- With enough halvings on the left operand, `| 0` changes nothing and `& 0` clears all.
or_zero_below : (n a : ℕ) → a ≤ n → bit_or a 0 ≡ a
or_zero_below n zero h = refl
or_zero_below zero (suc a) h = absurd (omega arith)
or_zero_below (suc n) (suc a) h =
    omega (arith, bit_or_digit (suc a) 0, or_zero_below n (suc a / 2) (omega arith))

and_zero_below : (n a : ℕ) → a ≤ n → bit_and a 0 ≡ 0
and_zero_below n zero h = refl
and_zero_below zero (suc a) h = absurd (omega arith)
and_zero_below (suc n) (suc a) h =
    omega (arith, bit_and_digit (suc a) 0, and_zero_below n (suc a / 2) (omega arith))

pub bit_or-zero : (a : ℕ) → bit_or a 0 ≡ a
bit_or-zero a = or_zero_below a a (le_refl a)

pub zero-bit_or : (b : ℕ) → bit_or 0 b ≡ b
zero-bit_or b = simp bit_or-bitwise refl

bit_and-zero : (a : ℕ) → bit_and a 0 ≡ 0
bit_and-zero a = and_zero_below a a (le_refl a)

double_field : (q k : ℕ) → q * 2 ^ suc k ≡ 2 * (q * 2 ^ k)
double_field q k = omega (arith, ap (λ (t : ℕ). q * t) (pow-suc 2 k))

-- `(q << k) | r` is a sum where `r` fits below bit `k`.
pub bit_or_high : (k q r : ℕ) → r < 2 ^ k → bit_or (q * 2 ^ k) r ≡ q * 2 ^ k + r
bit_or_high zero q r h = ground (arith, bit_or-zero q)
bit_or_high (suc k) q r h = ground (
  arith,
  bit_or_digit (q * 2 ^ suc k) r,
  double_field q k,
  bit_or_high k q (r / 2) (omega (arith, pow-suc 2 k)),
)

-- `r | (q << k)` likewise.
pub bit_or_low : (k q r : ℕ) → r < 2 ^ k → bit_or r (q * 2 ^ k) ≡ r + q * 2 ^ k
bit_or_low zero q r h = ground (arith, zero-bit_or q)
bit_or_low (suc k) q r h = ground (
  arith,
  bit_or_digit r (q * 2 ^ suc k),
  double_field q k,
  bit_or_low k q (r / 2) (omega (arith, pow-suc 2 k)),
)

-- `|` acts on two fields at bit `k` as on their contents.
pub bit_or_shifted : (k a b : ℕ) → bit_or (a * 2 ^ k) (b * 2 ^ k) ≡ bit_or a b * 2 ^ k
bit_or_shifted zero a b = ground arith
bit_or_shifted (suc k) a b = ground (
  arith,
  bit_or_digit (a * 2 ^ suc k) (b * 2 ^ suc k),
  double_field a k,
  double_field b k,
  double_field (bit_or a b) k,
  bit_or_shifted k a b,
)

pub bit_or-one : (a : ℕ) → bit_or a 1 ≡ a / 2 * 2 + 1
bit_or-one a = omega (arith, bit_or_digit a 1, bit_or-zero (a / 2))

-- `&` acts on a field at bit `k` as on its contents.
bit_and_shifted :
    (k q r m : ℕ) → r < 2 ^ k → bit_and (q * 2 ^ k + r) (m * 2 ^ k) ≡ bit_and q m * 2 ^ k
bit_and_shifted zero q r m h =
    rw (mul_one_pow q, mul_one_pow m, mul_one_pow (bit_and q m)) (ground arith)
  where
    mul_one_pow : (x : ℕ) → x * 2 ^ zero ≡ x
    mul_one_pow x = omega arith
bit_and_shifted (suc k) q r m h = ground (
  arith,
  bit_and_digit (q * 2 ^ suc k + r) (m * 2 ^ suc k),
  double_field q k,
  double_field m k,
  double_field (bit_and q m) k,
  bit_and_shifted k q (r / 2) m (omega (arith, pow-suc 2 k)),
)

bit_and_remainder : (n q r : ℕ) → r < 2 ^ n → bit_and (q * 2 ^ n + r) (2 ^ n - 1) ≡ r
bit_and_remainder zero q r h = rw (bit_and-zero _) (omega arith)
bit_and_remainder (suc n) q r h = ground (
  arith,
  bit_and_digit (q * 2 ^ suc n + r) (2 ^ suc n - 1),
  double_field q n,
  pow-suc 2 n,
  one-le-pow n 2,
  bit_and_remainder n q (r / 2) (omega (arith, pow-suc 2 n)),
)

-- `a & (2^n - 1)`: the mask of the `n` lowest bits.
pub bit_and_ones : (n a : ℕ) → bit_and a (2 ^ n - 1) ≡ a % 2 ^ n
bit_and_ones n a = ground (arith, one-le-pow n 2, bit_and_remainder n (a / 2 ^ n) (a % 2 ^ n))

-- `a & ((2^n - 1) << k)`: the mask of a field of `n` bits at bit `k`.
pub bit_and_field : (n k a : ℕ) → bit_and a ((2 ^ n - 1) * 2 ^ k) ≡ a / 2 ^ k % 2 ^ n * 2 ^ k
bit_and_field n k a = ground (
  arith,
  one-le-pow k 2,
  bit_and_shifted k (a / 2 ^ k) (a % 2 ^ k) (2 ^ n - 1),
  bit_and_ones n (a / 2 ^ k),
)

-- A property of all bytes, decided by evaluation.
unfoldable pub all_below : ℕ → (ℕ → Bool) → Bool
all_below zero p = true
all_below (suc n) p = p n && all_below n p

pub all_below_sound : (n : ℕ) (p : ℕ → Bool) → all_below n p ≡ true → (x : ℕ) → x < n → p x ≡ true
unfolding all_below
all_below_sound zero p e x h = absurd (omega arith)
all_below_sound (suc n) p e x h = ground (arith, all_below_sound n p (ground arith) x)

-- Two functions agree on every byte.
pub byte_table :
    (f g : ℕ → ℕ) → all_below 256 (λ x. f x == g x) ≡ true → (x : ℕ) → x < 256 → f x ≡ g x
byte_table f g e x h = (==_iff (f x) (g x)).0 (all_below_sound 256 (λ x. f x == g x) e x h)

-- The four high bits of a byte.
pub top_bit : (t : ℕ) → t < 256 → bit_and t 0x80 ≡ t / 128 * 128
unfolding all_below
top_bit = byte_table (λ t. bit_and t 0x80) (λ t. t / 128 * 128) refl

pub second_bit : (t : ℕ) → t < 256 → bit_and t 0x40 ≡ t / 64 % 2 * 64
unfolding all_below
second_bit = byte_table (λ t. bit_and t 0x40) (λ t. t / 64 % 2 * 64) refl

pub third_bit : (t : ℕ) → t < 256 → bit_and t 0x20 ≡ t / 32 % 2 * 32
unfolding all_below
third_bit = byte_table (λ t. bit_and t 0x20) (λ t. t / 32 % 2 * 32) refl

pub fourth_bit : (t : ℕ) → t < 256 → bit_and t 0x10 ≡ t / 16 % 2 * 16
unfolding all_below
fourth_bit = byte_table (λ t. bit_and t 0x10) (λ t. t / 16 % 2 * 16) refl

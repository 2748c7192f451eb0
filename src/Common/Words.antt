-- ===== src/Common/Words.antt =====
-- Fixed-width integers and the byte order of the host, which is little-endian. SWAP16 and SWAP32
-- are the macros of src/intl_utils.h.
use Prim.Native.Nat.{ℕ, ◌+◌, ◌*◌, ◌/◌, ◌%◌, ◌^◌, ◌≤◌, ◌<◌, bit_and, bit_or}
use mathlib.Core.Path.{◌≡◌, ◌∙◌, ap, ap₂}
use mathlib.Core.List.{List, [], ◌∷◌}
use native.Mathlib.Omega.{arith}
use native.Mathlib.Nat.{mul-add-mod_self_right, mod-eq_of_lt, div-add-mod', mod-lt}
use jcu_dparm.Common.Bits.{bit_and_ones, bit_and_field, bit_or_high}

abbrev pub u8 : ℕ → ℕ
u8 x = x % 2 ^ 8

abbrev pub u16 : ℕ → ℕ
u16 x = x % 2 ^ 16

abbrev pub u32 : ℕ → ℕ
u32 x = x % 2 ^ 32

abbrev pub u64 : ℕ → ℕ
u64 x = x % 2 ^ 64

abbrev pub IsByte : ℕ → Type 0
IsByte b = b < 256

infixl 75 ◌<<<◌ ◌>>>◌
abbrev pub ◌<<<◌ : ℕ → ℕ → ℕ
x <<< k = x * 2 ^ k

abbrev pub ◌>>>◌ : ℕ → ℕ → ℕ
x >>> k = x / 2 ^ k

-- The bytes of a `uint32_t` in the memory of the host, and back.
abbrev pub le32 : ℕ → List ℕ
le32 x = u8 x ∷ u8 (x >>> 8) ∷ u8 (x >>> 16) ∷ u8 (x >>> 24) ∷ []

abbrev pub of_le32 : ℕ → ℕ → ℕ → ℕ → ℕ
of_le32 a b c d = a + b * 2 ^ 8 + c * 2 ^ 16 + d * 2 ^ 24

unfoldable pub swap16 : ℕ → ℕ
swap16 x = bit_or (u16 (bit_and x 0x00ff <<< 8)) (bit_and x 0xff00 >>> 8)

unfoldable pub swap32 : ℕ → ℕ
swap32 x =
    bit_or
      (bit_or (bit_or (u32 (bit_and x 0x000000ff <<< 24)) (u32 (bit_and x 0x0000ff00 <<< 8)))
        (bit_and x 0x00ff0000 >>> 8))
      (bit_and x 0xff000000 >>> 24)

-- `swap16` in plain arithmetic.
pub swap16_bytes : (x : ℕ) → swap16 x ≡ x % 256 * 256 + x / 256 % 256
unfolding swap16
swap16_bytes x = ground (
  arith,
  bit_and_ones 8 x,
  bit_and_field 8 8 x,
  bit_or_high 8 (x % 256) (x / 256 % 256) (omega arith),
)

-- `swap32` in plain arithmetic.
pub swap32_bytes :
    (x : ℕ)
    → swap32 x
      ≡ x % 256 * 2 ^ 24 + x / 256 % 256 * 2 ^ 16 + x / 2 ^ 16 % 256 * 2 ^ 8 + x / 2 ^ 24 % 256
unfolding swap32
swap32_bytes x =
    ap₂ bit_or (ap₂ bit_or (ap₂ bit_or first second ∙ upper) third ∙ middle) fourth
    ∙ lower
    ∙ omega arith
  where
    first : u32 (bit_and x 0x000000ff <<< 24) ≡ x % 256 * 256 * 2 ^ 16
    first = omega (arith, bit_and_ones 8 x)

    second : u32 (bit_and x 0x0000ff00 <<< 8) ≡ x / 256 % 256 * 2 ^ 16
    second = omega (arith, bit_and_field 8 8 x)

    third : bit_and x 0x00ff0000 >>> 8 ≡ x / 2 ^ 16 % 256 * 2 ^ 8
    third = omega (arith, bit_and_field 8 16 x)

    fourth : bit_and x 0xff000000 >>> 24 ≡ x / 2 ^ 24 % 256
    fourth = omega (arith, bit_and_field 8 24 x)

    upper :
        bit_or (x % 256 * 256 * 2 ^ 16) (x / 256 % 256 * 2 ^ 16)
        ≡ (x % 256 * 2 ^ 16 + x / 256 % 256 * 2 ^ 8) * 2 ^ 8
    upper =
        ap (λ t. bit_or t (x / 256 % 256 * 2 ^ 16)) (omega arith)
        ∙ bit_or_high 24 (x % 256) (x / 256 % 256 * 2 ^ 16) (omega arith)
        ∙ omega arith

    middle :
        bit_or ((x % 256 * 2 ^ 16 + x / 256 % 256 * 2 ^ 8) * 2 ^ 8) (x / 2 ^ 16 % 256 * 2 ^ 8)
        ≡ (x % 256 * 2 ^ 16 + x / 256 % 256 * 2 ^ 8 + x / 2 ^ 16 % 256) * 2 ^ 8
    middle =
        ap (λ t. bit_or t (x / 2 ^ 16 % 256 * 2 ^ 8)) (omega arith)
        ∙ bit_or_high 16 (x % 256 * 256 + x / 256 % 256) (x / 2 ^ 16 % 256 * 2 ^ 8) (omega arith)
        ∙ omega arith

    lower :
        bit_or
          ((x % 256 * 2 ^ 16 + x / 256 % 256 * 2 ^ 8 + x / 2 ^ 16 % 256) * 2 ^ 8)
          (x / 2 ^ 24 % 256)
        ≡ (x % 256 * 2 ^ 16 + x / 256 % 256 * 2 ^ 8 + x / 2 ^ 16 % 256) * 2 ^ 8 + x / 2 ^ 24 % 256
    lower = bit_or_high 8 _ (x / 2 ^ 24 % 256) (omega arith)

pub swap32-lt : (x : ℕ) → swap32 x < 2 ^ 32
swap32-lt x = omega (arith, swap32_bytes x)

pub swap32-swap32 : (x : ℕ) → x < 2 ^ 32 → swap32 (swap32 x) ≡ x
swap32-swap32 x h = omega (arith, swap32_bytes x, swap32_bytes (swap32 x))

pub byte_times : (t m : ℕ) → t < 256 → t * m + m ≤ 256 * m
byte_times t m h = grind arith

-- The remainder by `m * 256` is that by `m` with one more byte in front.
pub mod-times_byte : (v m : ℕ) → 0 < m → v % (m * 256) ≡ v % m + v / m % 256 * m
mod-times_byte v m pos =
    ap (λ x. x % (m * 256)) parts
    ∙ mul-add-mod_self_right (v / m / 256) (m * 256) (v / m % 256 * m + v % m)
    ∙ mod-eq_of_lt small
    ∙ omega arith
  where
    parts : v ≡ v / m / 256 * (m * 256) + (v / m % 256 * m + v % m)
    parts = omega (arith, div-add-mod' v m, ap (λ (x : ℕ). x * m) (div-add-mod' (v / m) 256))

    small : v / m % 256 * m + v % m < m * 256
    small = omega (arith, byte_times (v / m % 256) m (omega arith), mod-lt v pos)

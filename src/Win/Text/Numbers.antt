-- ===== src/Win/Text/Numbers.antt =====
-- The number of a drive comes back from the path that is made of it.
use jcu_dparm.Common.{ℕ, zero, suc, ◌+◌, ◌-◌, ◌*◌, ◌/◌, ◌%◌, ◌^◌, ◌≤◌, ◌<◌, ◌≡◌, refl, ap, ◌∙◌}
use jcu_dparm.Common.{List, [], ◌∷◌, ◌++◌, arith, true, false, inl, inr, Bool-cases, ltb}
use jcu_dparm.Common.{◌==◌, All, All-append, done}
use jcu_dparm.Intl.{drop_while}
use jcu_dparm.Win.Text.{pos, decimal, digits_value, is_digit, is_white, atoi, signed_value}
use jcu_dparm.Win.Text.{physical_disk_path, default_dev_num}

abbrev IsDigit : ℕ → Type 0
IsDigit c = (0x30 ≤ c) × (c ≤ 0x39)

decimal-IsDigit : (f n : ℕ) → All IsDigit (decimal f n)
unfolding decimal
decimal-IsDigit zero n = tt
decimal-IsDigit (suc f) n = elim (Bool-cases (ltb n 10)) [
  | inl short ↦ rw short ((omega arith, omega arith), tt)
  | inr long ↦ rw long (
      All-append IsDigit (decimal f (n / 10)) ((0x30 + n % 10) ∷ []) (decimal-IsDigit f (n / 10))
        ((omega arith, omega arith), tt))
]

digits_value-append :
    (acc : ℕ) (xs ys : List ℕ)
    → All IsDigit xs
    → digits_value acc (xs ++ ys) ≡ digits_value (digits_value acc xs) ys
unfolding digits_value
digits_value-append acc [] ys h = refl
digits_value-append acc (x ∷ xs) ys h =
    let digit : is_digit x ≡ true = ground arith in
    rw digit (digits_value-append (acc * 10 + (x - 0x30)) xs ys h.1)

digits_value-decimal : (f n : ℕ) → n < f → digits_value 0 (decimal f n) ≡ n
unfolding digits_value decimal
digits_value-decimal zero n h = absurd (omega arith)
digits_value-decimal (suc f) n h = elim (Bool-cases (ltb n 10)) [
  | inl short ↦ rw short (ground arith)
  | inr long ↦ rw long (
      digits_value-append 0 (decimal f (n / 10)) ((0x30 + n % 10) ∷ []) (decimal-IsDigit f (n / 10))
      ∙ ap (λ t. digits_value t ((0x30 + n % 10) ∷ []))
          (digits_value-decimal f (n / 10) (ground arith))
      ∙ ground arith)
]

-- A text that starts with a digit is read as it is.
atoi_digits :
    (xs : List ℕ)
    → All IsDigit xs
    → digits_value 0 xs < 2 ^ 31
    → atoi xs ≡ done (pos (digits_value 0 xs))
unfolding atoi signed_value digits_value drop_while
atoi_digits [] h small = refl
atoi_digits (x ∷ xs) h small =
    let black : is_white x ≡ false = ground arith in
    let no_minus : (x == 0x2d) ≡ false = ground arith in
    let no_plus : (x == 0x2b) ≡ false = ground arith in rw (black, no_minus, no_plus) (ground arith)

-- The number of a drive comes back from its path: what the finder of the drives prints is what
-- the NVMe driver reads.
pub default_dev_num-physical_disk_path :
    (n : ℕ) → n < 2 ^ 31 → default_dev_num (physical_disk_path n) ≡ done (pos n)
unfolding default_dev_num physical_disk_path
default_dev_num-physical_disk_path n h =
    let value = digits_value-decimal (suc n) n (omega arith) in
    atoi_digits (decimal (suc n) n) (decimal-IsDigit (suc n) n) (omega (arith, value))
    ∙ ap (λ t. done (pos t)) value

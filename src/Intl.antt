-- ===== src/Intl.antt =====
-- src/intl_utils.cc: the texts of an identify structure. A `std::string` is the list of its bytes,
-- and a buffer the list of the bytes from the pointer on; a read past it is a `fault`.
pub mod Order
pub mod Reads
mod Runs
use jcu_dparm.Common.{ℕ, zero, suc, ◌+◌, ◌-◌, List, [], ◌∷◌, Bool, true, false, ◌&&◌, ◌||◌, ◌==◌}
use jcu_dparm.Common.{if◌then◌else◌, Outcome, done, fault, stuck, ◌>>=◌, drop}

-- The bytes up to the first zero, at most `length` of them: what `out_len` counts.
unfoldable pub before_zero : ℕ → List ℕ → Outcome (List ℕ)
before_zero zero m = done []
before_zero (suc n) [] = fault
before_zero (suc n) (x ∷ m) =
    let rest = before_zero n m in if x == 0 then done [] else (rest >>= λ r. done (x ∷ r))

-- A `while` from the end that drops the bytes of a class: a byte goes if it is of the class and all
-- behind it have gone.
unfoldable pub drop_last_while : (ℕ → Bool) → List ℕ → List ℕ
drop_last_while p [] = []
drop_last_while p (x ∷ xs) = elim (drop_last_while p xs) [
  | [] ↦ if p x then [] else x ∷ []
  | y ∷ ys ↦ x ∷ (y ∷ ys)
]

unfoldable pub drop_while : (ℕ → Bool) → List ℕ → List ℕ
drop_while p [] = []
drop_while p (x ∷ xs) = if p x then drop_while p xs else x ∷ xs

abbrev pub is_space : ℕ → Bool
is_space x = x == 0x20

-- Space, carriage return, line feed, tab.
abbrev pub is_blank : ℕ → Bool
is_blank x = x == 0x20 || (x == 0x0d || (x == 0x0a || x == 0x09))

abbrev pub trimmed : Bool → List ℕ → List ℕ
trimmed trim_right text = if trim_right then drop_last_while is_space text else text

unfoldable pub read_string : List ℕ → ℕ → Bool → Outcome (List ℕ)
read_string buffer n trim_right = before_zero n buffer >>= λ text. done (trimmed trim_right text)

unfoldable pub read_string_range : List ℕ → ℕ → ℕ → Bool → Outcome (List ℕ)
read_string_range buffer begin end trim_right =
    read_string (drop begin buffer) (end - begin) trim_right

-- The loop over pairs for a length of `2 * pairs`: both bytes are read first, and the text ends at
-- the first zero of the swapped order.
unfoldable pub swapped_before_zero : ℕ → List ℕ → Outcome (List ℕ)
swapped_before_zero zero m = done []
swapped_before_zero (suc pairs) [] = fault
swapped_before_zero (suc pairs) (x ∷ []) = fault
swapped_before_zero (suc pairs) (x ∷ (y ∷ m)) =
    let rest = swapped_before_zero pairs m in
    if y == 0 then done [] else if x == 0 then done (y ∷ []) else (rest >>= λ r. done (y ∷ (x ∷ r)))

-- For an even length, which is the only use.
unfoldable pub fix_ata_string_order : List ℕ → ℕ → Bool → Outcome (List ℕ)
fix_ata_string_order buffer pairs trim_right =
    swapped_before_zero pairs buffer >>= λ text. done (trimmed trim_right text)

-- The begin moves past the blanks; `c_str` ends in a zero, which is none.
unfoldable pub trim_string : List ℕ → List ℕ
trim_string input = drop_last_while is_blank (drop_while is_blank input)

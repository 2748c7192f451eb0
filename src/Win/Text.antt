-- ===== src/Win/Text.antt =====
-- The texts that src/plat-win makes and reads: the paths of drives, and `atoi`.
pub mod Numbers
use jcu_dparm.Common.{ℕ, zero, suc, ◌+◌, ◌-◌, ◌*◌, ◌/◌, ◌%◌, ◌^◌, List, [], ◌∷◌, ◌++◌, drop, length}
use jcu_dparm.Common.{Bool, true, false, ◌&&◌, ◌||◌, if◌then◌else◌, ◌==◌, ltb, leb}
use jcu_dparm.Common.Strings.{contains}
use jcu_dparm.Common.{Outcome, done, fault, ◌>>=◌}
use jcu_dparm.Intl.{drop_while}

-- An `int`; `negsuc n` is -(n + 1).
pub data ℤ : Type 0 where
  pos : ℕ → ℤ
  negsuc : ℕ → ℤ

-- A `DWORD` that is stored in an `int`.
abbrev pub to_int : ℕ → ℤ
to_int n = if ltb n (2 ^ 31) then pos n else negsuc (2 ^ 32 - 1 - n)

-- `%u` and, for a number that is not negative, `%d`. Each round but the last one divides by ten, so
-- `n` and one rounds are enough.
unfoldable pub decimal : ℕ → ℕ → List ℕ
decimal zero n = []
decimal (suc f) n =
    let last : List ℕ = (0x30 + n % 10) ∷ [] in
    let longer = decimal f (n / 10) ++ last in if ltb n 10 then last else longer

abbrev pub decimal_text : ℕ → List ℕ
decimal_text n = decimal (suc n) n

abbrev pub is_digit : ℕ → Bool
is_digit c = leb 0x30 c && leb c 0x39

-- `isspace`
abbrev pub is_white : ℕ → Bool
is_white c = c == 0x20 || (leb 0x09 c && leb c 0x0d)

unfoldable pub digits_value : ℕ → List ℕ → ℕ
digits_value acc [] = acc
digits_value acc (c ∷ cs) =
    let rest = digits_value (acc * 10 + (c - 0x30)) cs in if is_digit c then rest else acc

-- A value outside of `int` is undefined.
abbrev pub positive : ℕ → Outcome ℤ
positive n = if ltb n (2 ^ 31) then done (pos n) else fault

abbrev pub negative : ℕ → Outcome ℤ
negative n =
    if n == 0 then done (pos 0) else if leb n (2 ^ 31) then done (negsuc (n - 1)) else fault

unfoldable pub signed_value : List ℕ → Outcome ℤ
unfolding digits_value
signed_value [] = done (pos 0)
signed_value (c ∷ cs) =
    if c == 0x2d
    then negative (digits_value 0 cs)
    else if c == 0x2b
    then positive (digits_value 0 cs)
    else positive (digits_value 0 (c ∷ cs))

unfoldable pub atoi : List ℕ → Outcome ℤ
unfolding signed_value
atoi text = signed_value (drop_while is_white text)

-- "\\.\PhysicalDrive"
abbrev pub physical_drive_text : List ℕ
physical_drive_text =
    0x5c ∷ 0x5c ∷ 0x2e ∷ 0x5c ∷ 0x50 ∷ 0x68 ∷ 0x79 ∷ 0x73 ∷ 0x69 ∷ 0x63 ∷ 0x61 ∷ 0x6c ∷ 0x44 ∷ 0x72
    ∷ 0x69 ∷ 0x76 ∷ 0x65 ∷ []

-- "\\.\PhysicalDrive%u"
unfoldable pub physical_disk_path : ℕ → List ℕ
unfolding decimal
physical_disk_path n = physical_drive_text ++ decimal_text n

-- "\\.\SCSI%d:"
unfoldable pub scsi_path : ℕ → List ℕ
unfolding decimal
scsi_path port =
    0x5c ∷ 0x5c ∷ 0x2e ∷ 0x5c ∷ 0x53 ∷ 0x43 ∷ 0x53 ∷ 0x49 ∷ (decimal_text port ++ (0x3a ∷ []))

-- The number that `NvmeWinDriverHandle` reads out of its path: the text may stand anywhere in the
-- path, and its length is skipped from the beginning.
unfoldable pub default_dev_num : List ℕ → Outcome ℤ
unfolding atoi
default_dev_num path =
    if contains physical_drive_text path
    then atoi (drop (length physical_drive_text) path)
    else done (negsuc 0)

-- ===== src/Intl/Runs.antt =====
-- The texts of an identify structure at concrete input.
use jcu_dparm.Common.{ℕ, ◌≡◌, refl, List, [], ◌∷◌, true, done}
use jcu_dparm.Intl.{read_string, before_zero, drop_last_while, trim_string, drop_while}

-- "WD 1" and two spaces.
abbrev model : List ℕ
model = 0x57 ∷ 0x44 ∷ 0x20 ∷ 0x31 ∷ 0x20 ∷ 0x20 ∷ []

read_string_now : read_string model 6 true ≡ done (0x57 ∷ 0x44 ∷ 0x20 ∷ 0x31 ∷ [])
unfolding read_string before_zero drop_last_while
read_string_now = refl

trim_string_now : trim_string (0x20 ∷ 0x0a ∷ model) ≡ 0x57 ∷ 0x44 ∷ 0x20 ∷ 0x31 ∷ []
unfolding trim_string drop_while drop_last_while
trim_string_now = refl

-- ===== src/Common/Strings.antt =====
-- `strncmp` for a prefix, and `strstr`, on texts that are the lists of their bytes.
use Prim.Native.Nat.{ℕ}
use mathlib.Core.Bool.{Bool, true, false, ◌&&◌, ◌||◌}
use mathlib.Core.List.{List, [], ◌∷◌}
use jcu_dparm.Common.Tests.{◌==◌}

abbrev pub is_prefix : List ℕ → List ℕ → Bool
is_prefix [] text = true
is_prefix (p ∷ ps) [] = false
is_prefix (p ∷ ps) (c ∷ cs) = p == c && is_prefix ps cs

abbrev pub contains : List ℕ → List ℕ → Bool
contains text [] = is_prefix text []
contains text (c ∷ cs) = is_prefix text (c ∷ cs) || contains text cs

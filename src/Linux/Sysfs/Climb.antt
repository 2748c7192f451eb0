-- ===== src/Linux/Sysfs/Climb.antt =====
-- The climb of `sysfs_find_attr_file_path` stops at the nearest directory.
use jcu_dparm.Common.{ℕ, zero, suc, ◌+◌, ◌*◌, ◌≤◌, ◌<◌, ◌≡◌, ap, sym, ◌∙◌, arith, if-cases}
use jcu_dparm.Common.{List, ◌++◌, true, false, inl, inr, length, length-append, ◌==◌}
use jcu_dparm.Common.{if◌then◌else◌}
use jcu_dparm.Linux.Sysfs.{Lookup, error, found, SysFs, path_append, climb, up_dots, einval}
use jcu_dparm.Linux.Sysfs.{find_attr_file_path}

-- `n` times "/.." behind a path.
abbrev pub up : ℕ → List ℕ → List ℕ
up zero path = path
up (suc n) path = up n (path ++ up_dots)

module _ {A : Type 0} (fs : SysFs A) (stop : ℕ) (attr : List ℕ) where
  abbrev pub HasAttr : List ℕ → Type 0
  HasAttr path = fs.is_readable (path_append path attr) ≡ true

  -- `p` is `n` steps above `path` and has the attribute, and no directory between them has it.
  pub record IsNearest (n : ℕ) (path p : List ℕ) : Type 0 where
    pub at : p ≡ up n path
    pub readable : HasAttr p
    pub between : (i : ℕ) → 0 < i → i < n → fs.is_readable (path_append (up i path) attr) ≡ false
    pub within : length p ≡ length path + 3 * n

  first_step :
      (path p : List ℕ)
      → HasAttr (path ++ up_dots)
      → found (path ++ up_dots) ≡ found p
      → IsNearest 1 path p
  first_step path p here e =
      let same : path ++ up_dots ≡ p = cc in
      record {
        at = sym same;
        readable = ap (λ t. fs.is_readable (path_append t attr)) (sym same) ∙ here;
        between = λ i low high. absurd (omega arith);
        within = omega (arith, ap length same, length-append path up_dots);
      }

  next_step :
      (n : ℕ) (path p : List ℕ)
      → fs.is_readable (path_append (path ++ up_dots) attr) ≡ false
      → IsNearest n (path ++ up_dots) p
      → IsNearest (suc n) path p
  next_step n path p missing rest = record {
    at = rest.at;
    readable = rest.readable;
    between = λ i low high. closer i low high;
    within = omega (arith, rest.within, length-append path up_dots);
  }
    where
      closer : (i : ℕ) → 0 < i → i < suc n → fs.is_readable (path_append (up i path) attr) ≡ false
      closer zero low high = absurd (omega arith)
      closer (suc zero) low high = missing
      closer (suc (suc i)) low high = rest.between (suc i) (omega arith) (omega arith)

  climb-IsNearest :
      (k : ℕ) (path p : List ℕ)
      → climb fs k stop attr path ≡ found p
      → (n : ℕ) × (n ≤ k) × IsNearest n path p
  unfolding climb
  climb-IsNearest zero path p e = absurd cc
  climb-IsNearest (suc k) path p e =
      step (fs.inode_of (path ++ up_dots)) e (climb-IsNearest k (path ++ up_dots) p)
    where
      path' : List ℕ
      path' = path ++ up_dots

      step :
          (r : Lookup ℕ)
          → elim r [
            | error n ↦ error n
            | found inode ↦
                if stop == inode
                then error einval
                else if fs.is_readable (path_append path' attr)
                then found path'
                else climb fs k stop attr path'
          ]
            ≡ found p
          → (climb fs k stop attr path' ≡ found p → (n : ℕ) × (n ≤ k) × IsNearest n path' p)
          → (n : ℕ) × (n ≤ suc k) × IsNearest n path p
      step (error n) h ih = absurd cc
      step (found inode) h ih = elim (if-cases (stop == inode) _ _ _ h) [
        | inl (stopped, bad) ↦ absurd cc
        | inr (below, more) ↦ elim (if-cases (fs.is_readable (path_append path' attr)) _ _ _ more) [
          | inl (here, same) ↦ (1, omega arith, first_step path p here same)
          | inr (missing, rest) ↦
              let (n, small, nearest) = ih rest in
              (suc n, omega arith, next_step n path p missing nearest)
        ]
      ]

  -- The directory that `sysfs_find_attr_file_path` returns has the attribute, lies at most 20 steps
  -- above the device, is the nearest such one, and its path is at most 60 bytes longer.
  pub find_attr_file_path-IsNearest :
      (path p : List ℕ)
      → find_attr_file_path fs stop attr path ≡ found p
      → (n : ℕ) × (n ≤ 20) × IsNearest n path p × (length p ≤ length path + 60)
  unfolding find_attr_file_path
  find_attr_file_path-IsNearest path p e =
      let (n, small, nearest) = climb-IsNearest 20 path p e in
      (n, small, nearest, omega (arith, nearest.within))

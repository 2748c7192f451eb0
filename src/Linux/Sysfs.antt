-- ===== src/Linux/Sysfs.antt =====
-- src/plat-linux/sysfs_utils.cc: the search for a device in /sys, and the reading of an attribute.
-- What the system answers is a parameter, which stays the same while it is read. A path is the list
-- of its bytes, and no path reaches PATH_MAX.
pub mod Search
pub mod Cache
pub mod Climb
pub mod Write
mod Runs
use jcu_dparm.Common.{ℕ, zero, suc, List, [], ◌∷◌, ◌++◌, Bool, true, false, not, ◌&&◌, Option}
use jcu_dparm.Common.{none, some, if◌then◌else◌, ◌==◌}

-- An entry of a directory: its name, and whether it is a directory or a link.
pub record Entry : Type 0 where
  pub name : List ℕ
  pub is_dir_or_link : Bool

-- Major and minor number.
pub record DevT : Type 0 where
  pub major : ℕ
  pub minor : ℕ

-- An error number, or a value.
pub data Lookup (A : Type 0) : Type 0 where
  error : ℕ → Lookup A
  found : A → Lookup A

-- What `fopen` and `fscanf` do: the file cannot be opened, with an errno that is not 0, or it ends
-- early, with the errno that happens to be there, or it does not fit the format, or its values are
-- read.
pub data Scan (A : Type 0) : Type 0 where
  unopened : ℕ → Scan A
  ended : ℕ → Scan A
  unmatched : Scan A
  scanned : A → Scan A

-- `leftover` is what the two variables of `sysfs_find_dev2`, which it does not initialise, hold when
-- the attribute of a directory is read.
pub record SysFs (A : Type 0) : Type 0 where
  pub leftover : List ℕ → DevT
  pub list_dir : List ℕ → Lookup (List Entry)
  pub scan_dev : List ℕ → Scan DevT
  pub scan_attr : List ℕ → Scan A
  pub inode_of : List ℕ → Lookup ℕ
  pub is_readable : List ℕ → Bool

abbrev pub enoent : ℕ
enoent = 2

abbrev pub einval : ℕ
einval = 22

-- `path_append`
abbrev pub path_append : List ℕ → List ℕ → List ℕ
path_append path new = path ++ (0x2f ∷ new)

-- The end of `sysfs_read_attr`. `before` is what the variables held: a file that ends early while
-- errno is 0 counts as read.
abbrev pub attr_result : {A : Type 0} → A → Scan A → Lookup A
attr_result before (unopened e) = error e
attr_result before (ended e) = if e == 0 then found before else error e
attr_result before unmatched = error einval
attr_result before (scanned a) = found a

-- "/dev"
abbrev pub dev_attr : List ℕ
dev_attr = 0x2f ∷ 0x64 ∷ 0x65 ∷ 0x76 ∷ []

abbrev pub is_hidden : List ℕ → Bool
is_hidden [] = false
is_hidden (c ∷ cs) = c == 0x2e

abbrev pub is_candidate : Entry → Bool
is_candidate e = e.is_dir_or_link && not (is_hidden e.name)

-- What is to be done with a directory: leave it out, take it, or look below it.
pub data Verdict : Type 0 where
  skip take descend : Verdict

-- The number of a directory: `none` where it has no attribute `dev`.
abbrev pub number_of : Lookup DevT → Option DevT
number_of (error e) = none
number_of (found d) = some d

abbrev pub or_else : Lookup (List ℕ) → Lookup (List ℕ) → Lookup (List ℕ)
or_else (found p) other = found p
or_else (error e) other = other

abbrev pub in_dir : (List Entry → Lookup (List ℕ)) → Lookup (List Entry) → Lookup (List ℕ)
in_dir f (error e) = error e
in_dir f (found es) = f es

unfoldable pub verdict : DevT → Option DevT → Verdict
verdict dev none = descend
verdict dev (some d) =
    if not (d.major == dev.major) then skip else if d.minor == dev.minor then take else descend

unfoldable pub read_dev : {A : Type 0} → SysFs A → List ℕ → Option DevT
read_dev fs path =
    number_of (attr_result (fs.leftover path) (fs.scan_dev (path_append path dev_attr)))

module _ {A : Type 0} (fs : SysFs A) (dev : DevT) where
  -- The loop over the entries; `deeper` is the call for a directory.
  unfoldable pub visit : (List ℕ → Lookup (List ℕ)) → List ℕ → List Entry → Lookup (List ℕ)
  unfolding read_dev verdict
  visit deeper path [] = error enoent
  visit deeper path (e ∷ es) =
      let rest = visit deeper path es in
      let path' = path_append path e.name in
      if is_candidate e
      then elim (verdict dev (read_dev fs path')) [
        | skip ↦ rest
        | take ↦ found path'
        | descend ↦ or_else (deeper path') rest
      ]
      else rest

  -- `sysfs_find_dev2`. The path comes back as it was where nothing is found.
  unfoldable pub find_dev2 : ℕ → List ℕ → Lookup (List ℕ)
  unfolding visit
  find_dev2 zero path = in_dir (visit (λ p. error enoent) path) (fs.list_dir path)
  find_dev2 (suc recurse) path = in_dir (visit (find_dev2 recurse) path) (fs.list_dir path)

-- "/sys/block"
abbrev pub sys_block : List ℕ
sys_block = 0x2f ∷ 0x73 ∷ 0x79 ∷ 0x73 ∷ 0x2f ∷ 0x62 ∷ 0x6c ∷ 0x6f ∷ 0x63 ∷ 0x6b ∷ []

-- "/.."
abbrev pub up_dots : List ℕ
up_dots = 0x2f ∷ 0x2e ∷ 0x2e ∷ []

-- The static variables of `sysfs_find_fd`.
pub record PathCache : Type 0 where
  pub have_prev : Bool
  pub prev : DevT
  pub path : List ℕ

abbrev pub same_dev : DevT → DevT → Bool
same_dev a b = a.major == b.major && a.minor == b.minor

abbrev pub remembered : DevT → Lookup (List ℕ) → PathCache → Lookup (List ℕ) × PathCache
remembered d (error e) c = (error e, record c { have_prev = false; prev = d })
remembered d (found p) c = (found p, record { have_prev = true; prev = d; path = p })

module _ {A : Type 0} (fs : SysFs A) where
  unfoldable pub find_dev : DevT → Lookup (List ℕ)
  unfolding find_dev2
  find_dev dev = find_dev2 fs dev 1 sys_block

  -- `sysfs_find_fd`, with what `get_dev_from_fd` says of the descriptor.
  unfoldable pub find_fd : Lookup DevT → PathCache → Lookup (List ℕ) × PathCache
  unfolding find_dev
  find_fd (error e) c = (error e, record c { have_prev = false })
  find_fd (found d) c =
      if c.have_prev && same_dev d c.prev then (found c.path, c) else remembered d (find_dev d) c

  -- The loop of `sysfs_find_attr_file_path`, for the rounds that are left. Its `have_prev` is never
  -- set.
  unfoldable pub climb : ℕ → ℕ → List ℕ → List ℕ → Lookup (List ℕ)
  climb zero stop attr path = error einval
  climb (suc k) stop attr path =
      let path' = path ++ up_dots in
      let rest = climb k stop attr path' in
      elim (fs.inode_of path') [
        | error e ↦ error e
        | found inode ↦
            if stop == inode
            then error einval
            else if fs.is_readable (path_append path' attr)
            then found path'
            else rest
      ]

  -- `sysfs_find_attr_file_path`, with the inode of /sys/devices.
  unfoldable pub find_attr_file_path : ℕ → List ℕ → List ℕ → Lookup (List ℕ)
  unfolding climb
  find_attr_file_path stop attr start = climb 20 stop attr start

  abbrev pub read_at : A → List ℕ → Lookup (List ℕ) × PathCache → Lookup A × PathCache
  read_at before attr (error e, c) = (error e, c)
  read_at before attr (found p, c) = (attr_result before (fs.scan_attr (path_append p attr)), c)

  unfoldable pub get_attr : A → Lookup DevT → List ℕ → PathCache → Lookup A × PathCache
  unfolding find_fd
  get_attr before dev attr c = read_at before attr (find_fd dev c)

  abbrev pub above : ℕ → List ℕ → Lookup (List ℕ) × PathCache → Lookup (List ℕ) × PathCache
  above stop attr (error e, c) = (error e, c)
  above stop attr (found p, c) = (find_attr_file_path stop attr p, c)

  unfoldable pub get_attr_recursive :
      A → ℕ → Lookup DevT → List ℕ → PathCache → Lookup A × PathCache
  unfolding find_fd find_attr_file_path
  get_attr_recursive before stop dev attr c = read_at before attr (above stop attr (find_fd dev c))

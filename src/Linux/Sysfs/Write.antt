-- ===== src/Linux/Sysfs/Write.antt =====
-- The rest of src/plat-linux/sysfs_utils.cc, the writing of an attribute and the number behind a
-- descriptor, and `mergeDriveInfo` of src/plat-linux/driver_base.cc.
use jcu_dparm.Common.{ℕ, ◌+◌, ◌-◌, ◌≡◌, arith, List, Bool, not, Option, none, some}
use jcu_dparm.Common.{if◌then◌else◌, ◌==◌, get_or, true}
use jcu_dparm.Linux.Sysfs.{DevT, Lookup, error, found, SysFs, PathCache, find_fd, path_append}
use jcu_dparm.Linux.Sysfs.{einval}

-- `S_ISBLK` or `S_ISCHR` of the mode, and the two numbers.
pub record Stat : Type 0 where
  pub is_device : Bool
  pub st_rdev : DevT
  pub st_dev : DevT

-- `get_dev_from_fd`, with the answer of `fstat`.
unfoldable pub get_dev_from_fd : Lookup Stat → Lookup DevT
get_dev_from_fd (error e) = error e
get_dev_from_fd (found st) = found (if st.is_device then st.st_rdev else st.st_dev)

-- What the pointer to the value points to.
pub data Width : Type 0 where
  as_text as_unsigned as_unsigned_long as_unsigned_long_long : Width

-- The second character of the format, and the third.
unfoldable pub width_of : List ℕ → Option Width
width_of fmt =
    let c = get_or fmt 1 0 in
    if c == 0x73
    then some as_text
    else if c == 0x64
    then some as_unsigned
    else if c == 0x75
    then some as_unsigned
    else if c == 0x6c
    then some (if get_or fmt 2 0 == 0x6c then as_unsigned_long_long else as_unsigned_long)
    else none

-- The calls of the C library: `fopen` for writing and `fprintf` answer an errno, which is not 0, where
-- they fail. `V` is a pointer to a value.
pub record Output (V W : Type 0) : Type 0 where
  pub fopen : List ℕ → W → Option ℕ × W
  pub fprintf : List ℕ → Width → V → W → Option ℕ × W
  pub fclose : W → W

module _ {V W : Type 0} (out : Output V W) where
  abbrev pub closed_with : Option ℕ × W → ℕ × W
  closed_with (none, w) = (0, out.fclose w)
  closed_with (some e, w) = (e, out.fclose w)

  abbrev pub printed : List ℕ → V → Option Width → W → ℕ × W
  printed fmt v none w = (einval, out.fclose w)
  printed fmt v (some width) w = closed_with (out.fprintf fmt width v w)

  -- A format without a percent sign leaves the file open.
  abbrev pub write_opened : List ℕ → V → Option ℕ × W → ℕ × W
  write_opened fmt v (some e, w) = (e, w)
  write_opened fmt v (none, w) =
      if not (get_or fmt 0 0 == 0x25) then (einval, w) else printed fmt v (width_of fmt) w

  unfoldable pub write_attr : List ℕ → List ℕ → List ℕ → V → W → ℕ × W
  unfolding width_of
  write_attr path attr fmt v w = write_opened fmt v (out.fopen (path_append path attr) w)

  abbrev pub write_found : List ℕ → List ℕ → V → W → Lookup (List ℕ) × PathCache → ℕ × PathCache × W
  write_found attr fmt v w (error e, c) = (e, c, w)
  write_found attr fmt v w (found p, c) = let (e, w') = write_attr p attr fmt v w in (e, c, w')

  -- `sysfs_set_attr`
  unfoldable pub set_attr :
      {A : Type 0} → SysFs A → Lookup DevT → List ℕ → List ℕ → V → PathCache → W → ℕ × PathCache × W
  unfolding find_fd write_attr
  set_attr fs dev attr fmt v c w = write_found attr fmt v w (find_fd fs dev c)

-- `LinuxDriverHandle::mergeDriveInfo`: the capacity, where BLKGETSIZE64 gives one.
unfoldable pub merge_drive_info_linux : Option ℕ → ℕ → ℕ
merge_drive_info_linux none total_capacity = total_capacity
merge_drive_info_linux (some size) total_capacity = size

abbrev new_file : Option ℕ → ℕ
new_file none = 1
new_file (some e) = 0

-- How the calls count open files.
record IsCounted {V W : Type 0} (out : Output V W) (opened : W → ℕ) : Type 0 where
  made : (p : List ℕ) (w : W) → opened (out.fopen p w).1 ≡ opened w + new_file (out.fopen p w).0
  kept :
      (fmt : List ℕ) (width : Width) (v : V) (w : W)
      → opened (out.fprintf fmt width v w).1 ≡ opened w
  shut : (w : W) → opened (out.fclose w) ≡ opened w - 1

module _ {V W : Type 0} (out : Output V W) (opened : W → ℕ) (counts : IsCounted out opened) where
  closed_with-opened : (r : Option ℕ × W) → opened (closed_with out r).1 ≡ opened r.1 - 1
  closed_with-opened (none, w) = counts.shut w
  closed_with-opened (some e, w) = counts.shut w

  printed-opened :
      (fmt : List ℕ) (v : V) (width : Option Width) (w : W)
      → opened (printed out fmt v width w).1 ≡ opened w - 1
  printed-opened fmt v none w = counts.shut w
  printed-opened fmt v (some width) w =
      omega (arith, closed_with-opened (out.fprintf fmt width v w), counts.kept fmt width v w)

  write_opened-opened :
      (fmt : List ℕ) (v : V) (r : Option ℕ × W) (n : ℕ)
      → opened r.1 ≡ n + new_file r.0
      → (get_or fmt 0 0 == 0x25) ≡ true
      → opened (write_opened out fmt v r).1 ≡ n
  write_opened-opened fmt v (some e, w) n made percent = omega (arith, made)
  write_opened-opened fmt v (none, w) n made percent =
      rw percent (omega (arith, printed-opened fmt v (width_of fmt) w, made))

  -- A format that begins with a percent sign leaves as many files open as there were, whichever
  -- call fails.
  write_attr-opened :
      (path attr fmt : List ℕ) (v : V) (w : W)
      → (get_or fmt 0 0 == 0x25) ≡ true
      → opened (write_attr out path attr fmt v w).1 ≡ opened w
  unfolding write_attr
  write_attr-opened path attr fmt v w percent =
      write_opened-opened fmt v (out.fopen (path_append path attr) w) (opened w)
        (counts.made (path_append path attr) w) percent

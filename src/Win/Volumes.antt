-- ===== src/Win/Volumes.antt =====
-- src/plat-win/volume_finder.cc: the volumes and the drives that they are on. What the system
-- answers for each volume is an argument.
use jcu_dparm.Common.{ℕ, ◌-◌, ◌^◌, List, [], ◌∷◌, Bool, false, Option, none, some}
use jcu_dparm.Common.{if◌then◌else◌, ◌==◌}
use jcu_dparm.Win.Text.{ℤ, pos, negsuc}

-- `Win32VolumeInfo`. The disk numbers stand for the buffer of VOLUME_DISK_EXTENTS: `none` is an
-- empty buffer.
pub record Win32VolumeInfo : Type 0 where
  pub path : List ℕ
  pub filesystem : List ℕ
  pub mount_points : List (List ℕ)
  pub disk_numbers : Option (List ℕ)

-- `GetVolumePathNamesForVolumeName`, `GetVolumeInformation`, whether `CreateFile` opens the volume,
-- and IOCTL_VOLUME_GET_VOLUME_DISK_EXTENTS.
pub record VolumeAnswers : Type 0 where
  pub volume_name : List ℕ
  pub path_names : Option (List (List ℕ))
  pub filesystem_name : Option (List ℕ)
  pub can_open : Bool
  pub extents : Option (List ℕ)

abbrev pub texts_of : Option (List (List ℕ)) → List (List ℕ)
texts_of none = []
texts_of (some ts) = ts

abbrev pub text_of : Option (List ℕ) → List ℕ
text_of none = []
text_of (some t) = t

-- A backslash at the end of the name goes.
unfoldable pub without_backslash : List ℕ → List ℕ
without_backslash [] = []
without_backslash (c ∷ []) = if c == 0x5c then [] else c ∷ []
without_backslash (c ∷ d ∷ cs) = c ∷ without_backslash (d ∷ cs)

-- The loop of `init`.
unfoldable pub init_volumes : List VolumeAnswers → List Win32VolumeInfo
unfolding without_backslash
init_volumes [] = []
init_volumes (a ∷ rest_answers) =
    let rest = init_volumes rest_answers in
    if a.can_open
    then record {
      path = without_backslash a.volume_name;
      filesystem = text_of a.filesystem_name;
      mount_points = texts_of a.path_names;
      disk_numbers = a.extents;
    }
      ∷ rest
    else rest

-- An `int` that is compared with a `DWORD`.
abbrev pub to_dword : ℤ → ℕ
to_dword (pos n) = n
to_dword (negsuc n) = 2 ^ 32 - 1 - n

-- Only the first extent is looked at.
unfoldable pub is_on : ℤ → Option (List ℕ) → Bool
is_on dev_num none = false
is_on dev_num (some []) = false
is_on dev_num (some (n ∷ ns)) = n == to_dword dev_num

unfoldable pub volumes_of_drive : ℤ → List Win32VolumeInfo → List Win32VolumeInfo
unfolding is_on
volumes_of_drive dev_num [] = []
volumes_of_drive dev_num (v ∷ vs) =
    let rest = volumes_of_drive dev_num vs in
    if is_on dev_num v.disk_numbers then v ∷ rest else rest

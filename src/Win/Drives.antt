-- ===== src/Win/Drives.antt =====
-- src/plat-win/physical_drive_finder.cc: `enumPhysicalDrives`. What the class of disks says of each
-- device is an argument: the list ends where `SetupDiEnumDeviceInfo` does.
use jcu_dparm.Common.{ℕ, ◌<◌, ◌^◌, ◌≡◌, List, [], ◌∷◌, All, Bool, true, Option, none, some}
use jcu_dparm.Common.{if◌then◌else◌, done, ltb, arith, ◌∙◌, refl, Bool-cases, inl, inr}
use jcu_dparm.Win.Handle.{Files, FileResult, file_failed, file_opened}
use jcu_dparm.Win.Text.{ℤ, to_int, physical_disk_path, default_dev_num}
use jcu_dparm.Win.Text.Numbers.{default_dev_num-physical_disk_path}

pub record WindowsPhysicalDrive : Type 0 where
  pub device_index : ℤ
  pub physical_disk_path : List ℕ
  pub setupapi_device_path : List ℕ

-- `SetupDiEnumInterfaceDevice`, and the path of `SetupDiGetDeviceInterfaceDetail`.
pub record DiskAnswers : Type 0 where
  pub has_interface : Bool
  pub detail : Option (List ℕ)

-- The inner `do … while (0)`: a drive, or a `break`.
abbrev pub drive_of : List ℕ → Option ℕ → Option WindowsPhysicalDrive
drive_of setupapi none = none
drive_of setupapi (some n) = some (record {
  device_index = to_int n;
  physical_disk_path = physical_disk_path n;
  setupapi_device_path = setupapi;
})

abbrev pub append_found :
    Option WindowsPhysicalDrive → List WindowsPhysicalDrive → List WindowsPhysicalDrive
append_found none ds = ds
append_found (some d) ds = d ∷ ds

-- `device_number` is IOCTL_STORAGE_GET_DEVICE_NUMBER.
module _ {W : Type 0} (files : Files W) (device_number : ℕ → W → Option ℕ × W) where
  -- The handle is closed, whether it has a number or not.
  abbrev pub numbered : List ℕ → ℕ → Option ℕ × W → Option WindowsPhysicalDrive × W
  numbered setupapi h (number, w) = (drive_of setupapi number, files.close_handle h w)

  abbrev pub with_file : List ℕ → FileResult × W → Option WindowsPhysicalDrive × W
  with_file setupapi (file_failed e, w) = (none, w)
  with_file setupapi (file_opened h, w) = numbered setupapi h (device_number h w)

  abbrev pub with_detail : Option (List ℕ) → W → Option WindowsPhysicalDrive × W
  with_detail none w = (none, w)
  with_detail (some setupapi) w = with_file setupapi (files.create_file setupapi w)

  unfoldable pub physical_drive : DiskAnswers → W → Option WindowsPhysicalDrive × W
  physical_drive a w = if a.has_interface then with_detail a.detail w else (none, w)

  unfoldable pub physical_drives : List DiskAnswers → W → List WindowsPhysicalDrive × W
  unfolding physical_drive
  physical_drives [] w = ([], w)
  physical_drives (a ∷ answers) w =
      let (d, w') = physical_drive a w in
      let (ds, w'') = physical_drives answers w' in (append_found d ds, w'')

  -- The error of `SetupDiGetClassDevs`, or 0, and the drives.
  unfoldable pub enum_physical_drives :
      Option ℕ → List DiskAnswers → W → ℕ × List WindowsPhysicalDrive × W
  unfolding physical_drives
  enum_physical_drives none answers w =
      let (drives, w') = physical_drives answers w in (0, drives, w')
  enum_physical_drives (some e) answers w = (e, [], w)

-- A drive that the NVMe driver would number as the enumeration has.
abbrev pub IsNumbered : WindowsPhysicalDrive → Type 0
IsNumbered d = default_dev_num d.physical_disk_path ≡ done d.device_index

abbrev pub IsSmall : Option ℕ → Type 0
IsSmall none = Unit {0}
IsSmall (some n) = n < 2 ^ 31

abbrev AllNumbered : Option WindowsPhysicalDrive → Type 0
AllNumbered none = Unit {0}
AllNumbered (some d) = IsNumbered d

drive_of-AllNumbered :
    (setupapi : List ℕ) (number : Option ℕ)
    → IsSmall number
    → AllNumbered (drive_of setupapi number)
drive_of-AllNumbered setupapi none small = tt
drive_of-AllNumbered setupapi (some n) small =
    let fits : ltb n (2 ^ 31) ≡ true = ground arith in
    default_dev_num-physical_disk_path n small ∙ rw fits refl

append_found-AllNumbered :
    (d : Option WindowsPhysicalDrive) (ds : List WindowsPhysicalDrive)
    → AllNumbered d
    → All IsNumbered ds
    → All IsNumbered (append_found d ds)
append_found-AllNumbered none ds first rest = rest
append_found-AllNumbered (some d) ds first rest = (first, rest)

module _ {W : Type 0} (files : Files W) (device_number : ℕ → W → Option ℕ × W)
    (small : (h : ℕ) (w : W) → IsSmall (device_number h w).0) where
  with_file-AllNumbered :
      (setupapi : List ℕ) (f : FileResult × W)
      → AllNumbered (with_file files device_number setupapi f).0
  with_file-AllNumbered setupapi (file_failed e, w) = tt
  with_file-AllNumbered setupapi (file_opened h, w) =
      drive_of-AllNumbered setupapi (device_number h w).0 (small h w)

  with_detail-AllNumbered :
      (detail : Option (List ℕ)) (w : W) → AllNumbered (with_detail files device_number detail w).0
  with_detail-AllNumbered none w = tt
  with_detail-AllNumbered (some setupapi) w =
      with_file-AllNumbered setupapi (files.create_file setupapi w)

  physical_drive-AllNumbered :
      (a : DiskAnswers) (w : W) → AllNumbered (physical_drive files device_number a w).0
  unfolding physical_drive
  physical_drive-AllNumbered a w = elim (Bool-cases a.has_interface) [
    | inl there ↦ rw there (with_detail-AllNumbered a.detail w)
    | inr missing ↦ rw missing tt
  ]

  physical_drives-IsNumbered :
      (answers : List DiskAnswers) (w : W)
      → All IsNumbered (physical_drives files device_number answers w).0
  unfolding physical_drives
  physical_drives-IsNumbered [] w = tt
  physical_drives-IsNumbered (a ∷ answers) w =
      append_found-AllNumbered (physical_drive files device_number a w).0 _
        (physical_drive-AllNumbered a w)
        (physical_drives-IsNumbered answers (physical_drive files device_number a w).1)

  -- Where the system gives numbers of devices that are less than 2^31, every drive of an enumeration
  -- has the path out of which the NVMe driver reads the very number that the enumeration gives it,
  -- whatever calls failed for other devices.
  pub enum_physical_drives-IsNumbered :
      (failure : Option ℕ) (answers : List DiskAnswers) (w : W)
      → All IsNumbered (enum_physical_drives files device_number failure answers w).1
  unfolding enum_physical_drives
  enum_physical_drives-IsNumbered none answers w = physical_drives-IsNumbered answers w
  enum_physical_drives-IsNumbered (some e) answers w = tt

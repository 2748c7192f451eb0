-- ===== src/Win/Factory.antt =====
-- src/plat-win/drive_factory.cc: the drivers in the order in which they are tried, and `open`. The
-- life of a drive handle is that of the Linux factory (Drive/Factory).
pub mod Handles
use jcu_dparm.Common.{ℕ, List, [], ◌∷◌, Option, Outcome}
use jcu_dparm.Err.{DparmReturn}
use jcu_dparm.Drive.Identify.{DriveInfo, DriveCalls}
use jcu_dparm.Common.{map, done, ◌>>=◌, if◌then◌else◌, ◌==◌}
use jcu_dparm.Drive.Factory.{DriveHandle, OpenInfo, open_drive, enum_paths}
use jcu_dparm.Win.Drives.{WindowsPhysicalDrive, DiskAnswers, enum_physical_drives}
use jcu_dparm.Win.Handle.{Files, WinHandle}
use jcu_dparm.Win.Ata.{AtaCalls, open_ata}
use jcu_dparm.Win.Scsi.{ScsiCalls, open_scsi}
use jcu_dparm.Win.Nvme.{NvmeCalls, open_nvme_win, open_samsung, open_windows_nvme}

-- The calls of the system.
pub record WinCalls (W : Type 0) : Type 0 where
  pub files : Files W
  pub ata : AtaCalls W
  pub scsi : ScsiCalls W
  pub nvme : NvmeCalls W
  pub device_number : ℕ → W → Option ℕ × W

abbrev pub disk_path : WindowsPhysicalDrive → List ℕ
disk_path d = d.physical_disk_path

module _ {W : Type 0} (os : WinCalls W) where
  unfoldable pub win_drivers : List ℕ → List (W → DparmReturn (Option WinHandle) × W)
  unfolding open_nvme_win open_samsung open_windows_nvme open_scsi open_ata
  win_drivers path =
      open_nvme_win os.files os.nvme path
      ∷ open_samsung path
      ∷ open_windows_nvme os.files os.nvme path
      ∷ open_scsi os.files os.scsi path
      ∷ open_ata os.files os.ata path
      ∷ []

  unfoldable pub open_win :
      (WinHandle → DriveCalls W) → DriveInfo → List ℕ → W → Outcome (DriveHandle WinHandle × W)
  unfolding win_drivers open_drive
  open_win calls blank path w = open_drive (win_drivers path) calls blank w

  -- `enumDrives`, with what the system answers for the class of disks and for each of them. The
  -- twin of `open` for a drive of the enumeration hands the path of its disk on.
  unfoldable pub enum_drives_win :
      (WinHandle → DriveCalls W)
      → (List ℕ → DriveInfo)
      → Option ℕ
      → List DiskAnswers
      → W
      → Outcome (ℕ × List OpenInfo × W)
  unfolding enum_paths enum_physical_drives open_win
  enum_drives_win calls blank failure answers w =
      let (rc, drives, w') = enum_physical_drives os.files os.device_number failure answers w in
      if rc == 0
      then (enum_paths (λ p. open_win calls (blank p) p) (map disk_path drives) w' >>= λ r.
          done (0, r.0, r.1))
      else done (rc, [], w')

-- `close` of the driver handles, which the factory calls once: a handle that was opened is neither
-- null nor INVALID_HANDLE_VALUE.
abbrev pub close_win : {W : Type 0} → WinCalls W → WinHandle → W → W
close_win os h w = os.files.close_handle h.handle w

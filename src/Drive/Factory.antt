-- ===== src/Drive/Factory.antt =====
-- src/plat-linux/drive_factory.cc: the choice of a driver, the life of a drive handle, and the
-- enumeration of the drives. src/plat-win/drive_factory.cc repeats all but the enumeration. A driver
-- is the function that opens a path with it.
pub mod Handles
use jcu_dparm.Common.{ℕ, List, [], ◌∷◌, Bool, true, false, not, ◌&&◌, Option, none, some}
use jcu_dparm.Common.{if◌then◌else◌, Outcome, done, fault, ◌>>=◌, on_pointer}
use jcu_dparm.Common.Strings.{contains}
use jcu_dparm.Err.{DparmResult, DparmReturn, is_ok, returning, success}
use jcu_dparm.Drive.Identify.{DriveInfo, DriveCalls, after_open}
use jcu_dparm.Drive.Discovery.{TcgInfo, no_info}

-- `drive_info_.open_result` stands beside the rest of the info.
pub record OpenInfo : Type 0 where
  pub open_result : DparmResult
  pub info : DriveInfo
  pub tcg : TcgInfo

-- `LinuxDriveHandle`. A null `handle_` is `none`.
pub record DriveHandle (H : Type 0) : Type 0 where
  pub handle : Option H
  pub last_error : DparmResult
  pub drive_info : OpenInfo

abbrev pub is_some : {H : Type 0} → Option H → Bool
is_some none = false
is_some (some h) = true

abbrev pub is_open : {H : Type 0} → DriveHandle H → Bool
is_open d = is_some d.handle

abbrev pub failed_handle : {H : Type 0} → DriveInfo → DparmReturn (Option H) → DriveHandle H
failed_handle blank r = record {
  handle = r.value;
  last_error = r.result;
  drive_info = record { open_result = r.result; info = blank; tcg = no_info };
}

module _ {W H : Type 0} where
  -- The loop over the drivers, up to the first one that succeeds.
  unfoldable pub first_ok :
      List (W → DparmReturn (Option H) × W)
      → DparmReturn (Option H)
      → W
      → DparmReturn (Option H) × W
  first_ok [] last w = (last, w)
  first_ok (d ∷ ds) last w =
      let (r, w') = d w in let rest = first_ok ds r w' in if is_ok r.result then (r, w') else rest

  -- `init`, which calls the driver handle without a test.
  abbrev pub init_handle :
      (H → DriveCalls W) → DriveInfo → DparmReturn (Option H) × W → Outcome (DriveHandle H × W)
  init_handle calls blank (r, w) = on_pointer r.value fault (λ x.
      after_open (calls x) blank no_info w >>= λ p. done (
        record {
          handle = some x;
          last_error = r.result;
          drive_info = record { open_result = r.result; info = p.0; tcg = p.1 };
        },
        p.2,
      ))

  -- `open`. `blank` is a drive info as the constructor leaves it.
  unfoldable pub open_drive :
      List (W → DparmReturn (Option H) × W)
      → (H → DriveCalls W)
      → DriveInfo
      → W
      → Outcome (DriveHandle H × W)
  unfolding first_ok after_open
  open_drive drivers calls blank w =
      let (r, w') = first_ok drivers (returning success none) w in
      if is_ok r.result then init_handle calls blank (r, w') else done (failed_handle blank r, w')

  -- `close`, over that of the driver handle.
  unfoldable pub close_drive : (H → W → W) → DriveHandle H → W → DriveHandle H × W
  close_drive closer d w = elim (d.handle) [
    | none ↦ (d, w)
    | some x ↦ (record d { handle = none }, closer x w)
  ]

  -- The handle of each drive is dropped, and no destructor closes it.
  unfoldable pub enum_paths :
      (List ℕ → W → Outcome (DriveHandle H × W)) → List (List ℕ) → W → Outcome (List OpenInfo × W)
  enum_paths open_at [] w = done ([], w)
  enum_paths open_at (p ∷ ps) w = open_at p w >>= λ d.
      enum_paths open_at ps d.1 >>= λ rest. done (d.0.drive_info ∷ rest.0, rest.1)

-- An entry of /sys/block is taken if it is no loop device and /dev has a block device of its name.
unfoldable pub device_paths : (List ℕ → Bool) → List (List ℕ) → List (List ℕ)
device_paths is_block [] = []
device_paths is_block (name ∷ names) =
    let path : List ℕ = 0x2f ∷ 0x64 ∷ 0x65 ∷ 0x76 ∷ 0x2f ∷ name in
    let rest = device_paths is_block names in
    if not (contains (0x6c ∷ 0x6f ∷ 0x6f ∷ 0x70 ∷ []) name) && is_block path
    then path ∷ rest
    else rest

-- `enumDrives`, with the entries of the directory.
unfoldable pub enum_drives :
    {W H : Type 0}
    → (List ℕ → W → Outcome (DriveHandle H × W))
    → (List ℕ → Bool)
    → List (List ℕ)
    → W
    → Outcome (List OpenInfo × W)
unfolding enum_paths device_paths
enum_drives open_at is_block names w = enum_paths open_at (device_paths is_block names) w

-- ===== src/Win/Handle.antt =====
-- What the drivers of src/plat-win/drivers share: the opening of a device file, which is closed
-- again where the drive cannot be identified.
use jcu_dparm.Common.{ℕ, List, Option, none, some, if◌then◌else◌}
use jcu_dparm.Err.{DparmResult, DparmReturn, is_ok, success, returning, sys}

-- `CreateFile`: an error, or a handle that is neither null nor INVALID_HANDLE_VALUE.
pub data FileResult : Type 0 where
  file_failed : ℕ → FileResult
  file_opened : ℕ → FileResult

pub record Files (W : Type 0) : Type 0 where
  pub create_file : List ℕ → W → FileResult × W
  pub close_handle : ℕ → W → W

-- A handle object: the path that its device was opened by, the handle, and the identify data.
pub record WinHandle : Type 0 where
  pub device_path : List ℕ
  pub handle : ℕ
  pub identify : List ℕ

abbrev pub sys_error_of : ℕ → DparmResult
sys_error_of e = record { code = sys; sys_error = e; drive_status = 0 }

module _ {W : Type 0} (files : Files W) where
  -- What `identify` does with the handle: a result, and the identify data.
  abbrev pub opened_or_closed :
      List ℕ → ℕ → DparmResult × List ℕ × W → DparmReturn (Option WinHandle) × W
  opened_or_closed path h (r, bytes, w) =
      if is_ok r
      then (
        returning success (some (record { device_path = path; handle = h; identify = bytes })),
        w,
      )
      else (returning (record r { drive_status = 0 }) none, files.close_handle h w)

  abbrev pub identified :
      (ℕ → W → DparmResult × List ℕ × W)
      → List ℕ
      → FileResult × W
      → DparmReturn (Option WinHandle) × W
  identified identify path (file_failed e, w) = (returning (sys_error_of e) none, w)
  identified identify path (file_opened h, w) = opened_or_closed path h (identify h w)

  -- The `do … while (0)` of the drivers: `path` is the path of the handle object, `file` that of the
  -- file that is opened.
  unfoldable pub open_identified :
      (ℕ → W → DparmResult × List ℕ × W) → List ℕ → List ℕ → W → DparmReturn (Option WinHandle) × W
  open_identified identify path file w = identified identify path (files.create_file file w)

-- ===== src/Win/Nvme.antt =====
-- src/plat-win/drivers/nvme_win_driver.cc and windows_nvme_driver.cc: the two drivers for NVMe
-- drives, and `getScsiPath` of driver_utils.cc. The calls are a parameter.
pub mod Transfers
use jcu_dparm.Common.{
  ℕ, ◌-◌, ◌^◌, List, [], ◌++◌, take, drop, length, replicate, Option, none, some, ltb,
}
use jcu_dparm.Common.{Bool, if◌then◌else◌, Outcome, done, fault, ◌>>=◌, read_bytes}
use jcu_dparm.Err.{DparmResult, DparmReturn, failed, success, returning, sys, ioctl_failed}
use jcu_dparm.Drive.Driver.{NvmeAdminCmd, zero_cmd, DrivingType}
use jcu_dparm.Drive.Identify.{DriveInfo}
use jcu_dparm.Win.Handle.{Files, FileResult, file_failed, file_opened, WinHandle, sys_error_of}
use jcu_dparm.Win.Handle.{open_identified}
use jcu_dparm.Win.Text.{to_int, ℤ, pos, negsuc, scsi_path, default_dev_num}

-- `NVME_PASS_THROUGH_IOCTL` as far as it differs from call to call: the command. Its header, its
-- timeout of 40 seconds and its direction, which is always from the device, are constant, and its
-- data buffer of 4096 bytes is cleared.
abbrev pub PassThroughIoctl : Type 0
PassThroughIoctl = NvmeAdminCmd

-- A reply of a call: an error, or what it returns.
pub data Reply (A : Type 0) : Type 0 where
  refused : ℕ → Reply A
  answered : A → Reply A

-- `TStorageQueryWithBuffer`, as far as it is set: NVMeDataTypeIdentify or NVMeDataTypeLogPage, the
-- request value, and the length of the data.
pub record StorageQuery : Type 0 where
  pub is_log_page : Bool
  pub request_value : ℕ
  pub data_length : ℕ

-- The calls: IOCTL_SCSI_MINIPORT, which returns the data buffer; IOCTL_STORAGE_QUERY_PROPERTY, which
-- returns the length and the buffer; IOCTL_SCSI_GET_ADDRESS, which returns the port.
pub record NvmeCalls (W : Type 0) : Type 0 where
  pub scsi_miniport : ℕ → PassThroughIoctl → W → Reply (List ℕ) × W
  pub query_property : ℕ → StorageQuery → W → Reply (ℕ × List ℕ) × W
  pub get_address : ℕ → W → Reply ℕ × W

abbrev pub ioctl_error : ℕ → DparmResult
ioctl_error e = record { code = ioctl_failed; sys_error = e; drive_status = 0 }

-- Both directions of the copy: a read past the source and a write past the destination are faults.
abbrev pub memcpy : List ℕ → List ℕ → ℕ → Outcome (List ℕ)
memcpy dest src n =
    read_bytes n src >>= λ b. if ltb (length dest) n then fault else done (b ++ drop n dest)

module _ {W : Type 0} where
  -- What is done with the answers.
  abbrev pub passed : NvmeAdminCmd → Reply (List ℕ) × W → Outcome (DparmReturn ℕ × List ℕ × W)
  passed cmd (refused e, w) = done (returning (ioctl_error e) 0, cmd.addr, w)
  passed cmd (answered buffer, w) =
      memcpy cmd.addr buffer cmd.data_len >>= λ b. done (returning success 0, b, w)

  abbrev pub queried : List ℕ → Reply (ℕ × List ℕ) × W → Outcome (DparmResult × List ℕ × W)
  queried data' (refused e, w) = done (sys_error_of e, data', w)
  queried data' (answered (n, buffer), w) = memcpy data' buffer n >>= λ b. done (success, b, w)

abbrev pub log_query : ℕ → ℕ → StorageQuery
log_query log_id data_len = record {
  is_log_page = Bool.true;
  request_value = log_id;
  data_length = if ltb data_len 4096 then data_len else 4096;
}

module _ {W : Type 0} (calls : NvmeCalls W) (h : ℕ) where
  -- `NvmeWinDriverHandle::doNvmeAdminPassthru`. `cdw15` is 0 in every command of the library.
  unfoldable pub win_admin_passthru : NvmeAdminCmd → W → Outcome (DparmReturn ℕ × List ℕ × W)
  win_admin_passthru cmd w =
      passed cmd (calls.scsi_miniport h (record cmd { addr = replicate 4096 0 }) w)

  -- `WindowsNvmeDriverHandle::doNvmeGetLogPage`, which reads neither `nsid` nor `rae`. The length
  -- of the copy is the one that the call leaves in the structure.
  unfoldable pub win_get_log_page : ℕ → ℕ → List ℕ → W → Outcome (DparmResult × List ℕ × W)
  win_get_log_page log_id data_len data' w =
      queried data' (calls.query_property h (log_query log_id data_len) w)

abbrev pub first_buffer : {W : Type 0} → Reply (List ℕ) × W → DparmResult × List ℕ × W
first_buffer (refused e, w) = (sys_error_of e, [], w)
first_buffer (answered buffer, w) = (success, buffer, w)

abbrev pub queried_buffer : {W : Type 0} → Reply (ℕ × List ℕ) × W → DparmResult × List ℕ × W
queried_buffer (refused e, w) = (sys_error_of e, [], w)
queried_buffer (answered (n, buffer), w) = (success, buffer, w)

module _ {W : Type 0} (files : Files W) (calls : NvmeCalls W) where
  abbrev pub adapter_of : ℕ → Reply ℕ × W → Reply (List ℕ) × W
  adapter_of h (refused e, w) = (refused e, files.close_handle h w)
  adapter_of h (answered port, w) = (answered (scsi_path port), files.close_handle h w)

  abbrev pub asked : FileResult × W → Reply (List ℕ) × W
  asked (file_failed e, w) = (refused e, w)
  asked (file_opened h, w) = adapter_of h (calls.get_address h w)

  -- The path of the adapter, or an error.
  unfoldable pub get_scsi_path : List ℕ → W → Reply (List ℕ) × W
  get_scsi_path path w = asked (files.create_file path w)

  -- IDENTIFY, of the controller.
  abbrev pub miniport_identify : ℕ → W → DparmResult × List ℕ × W
  miniport_identify h w = first_buffer (
      calls.scsi_miniport h (record zero_cmd { opcode = 0x06; addr = replicate 4096 0; cdw10 = 1 })
        w)

  abbrev pub on_adapter : List ℕ → Reply (List ℕ) × W → DparmReturn (Option WinHandle) × W
  on_adapter path (refused e, w) = (returning (sys_error_of e) none, w)
  on_adapter path (answered file, w) = open_identified files miniport_identify path file w

  -- `NvmeWinDriver::open`.
  unfoldable pub open_nvme_win : List ℕ → W → DparmReturn (Option WinHandle) × W
  unfolding get_scsi_path
  open_nvme_win path w = on_adapter path (get_scsi_path path w)

  abbrev pub query_identify : ℕ → W → DparmResult × List ℕ × W
  query_identify h w = queried_buffer (
      calls.query_property h
        (record { is_log_page = Bool.false; request_value = 1; data_length = 4096 }) w)

  -- `WindowsNvmeDriver::open`.
  unfoldable pub open_windows_nvme : List ℕ → W → DparmReturn (Option WinHandle) × W
  unfolding open_identified
  open_windows_nvme path w = open_identified files query_identify path path w

-- `SamsungNvmeDriver::open`.
unfoldable pub open_samsung : {W : Type 0} → List ℕ → W → DparmReturn (Option WinHandle) × W
open_samsung path w = (returning (sys_error_of 0) none, w)

-- What the system adds to the drive info: the number of the drive and its size.
pub record PlatformInfo : Type 0 where
  pub windows_dev_num : ℤ
  pub total_capacity : ℤ

abbrev pub with_number : Option ℕ → PlatformInfo → PlatformInfo
with_number none i = i
with_number (some n) i = record i { windows_dev_num = to_int n }

abbrev pub with_capacity : Option ℤ → PlatformInfo → PlatformInfo
with_capacity none i = i
with_capacity (some n) i = record i { total_capacity = n }

-- `WindowsDriverHandle::mergeDriveInfo`, with the answers of its two calls.
unfoldable pub merge_drive_info_win : Option ℕ → Option ℤ → PlatformInfo → PlatformInfo
merge_drive_info_win number size i = with_capacity size (with_number number i)

abbrev pub or_default : ℤ → ℤ → ℤ
or_default (pos n) d = pos n
or_default (negsuc n) d = d

-- `NvmeWinDriverHandle::mergeDriveInfo`: the number of the path stands in for a missing one.
unfoldable pub merge_drive_info_nvme :
    List ℕ → Option ℕ → Option ℤ → PlatformInfo → Outcome PlatformInfo
unfolding merge_drive_info_win default_dev_num
merge_drive_info_nvme path number size i = default_dev_num path >>= λ d.
    let merged = merge_drive_info_win number size i in
    done (record merged { windows_dev_num = or_default merged.windows_dev_num d })

-- ===== src/Drive/Driver.antt =====
-- src/drive_driver_handle.h: the virtual methods of a driver that the drive handle calls, as an
-- interface over the state `W` of the world behind the driver. A method takes and returns the
-- buffer that the code passes by pointer, and the registers or the command it may change.
use jcu_dparm.Common.{ℕ, List, [], Bool, true, false}
use jcu_dparm.Err.{DparmResult, DparmReturn, failed, returning, not_supported, not_impl}
use jcu_dparm.Ata.{Tf}

-- `DrivingType` of include/jcu-dparm/types.h.
pub data DrivingType : Type 0 where
  unknown atapi nvme : DrivingType

abbrev pub is_atapi : DrivingType → Bool
is_atapi atapi = true
is_atapi _ = false

abbrev pub is_nvme : DrivingType → Bool
is_nvme nvme = true
is_nvme _ = false

-- The fields of `nvme_admin_cmd_t` that the handle sets; the others stay 0. `addr` stands for the
-- bytes that it points at.
pub record NvmeAdminCmd : Type 0 where
  pub opcode : ℕ
  pub nsid : ℕ
  pub addr : List ℕ
  pub data_len : ℕ
  pub cdw10 : ℕ
  pub cdw11 : ℕ
  pub cdw12 : ℕ
  pub cdw13 : ℕ
  pub cdw14 : ℕ

-- `nvme_admin_cmd_t cmd = { 0 }`
abbrev pub zero_cmd : NvmeAdminCmd
zero_cmd = record {
  opcode = 0;
  nsid = 0;
  addr = [];
  data_len = 0;
  cdw10 = 0;
  cdw11 = 0;
  cdw12 = 0;
  cdw13 = 0;
  cdw14 = 0;
}

-- The third argument of `doTaskfileCmd` is an `int`: 0, 1, or -1 for none.
pub data Dma : Type 0 where
  pio dma unset : Dma

-- `struct InquiryDeviceResult`.
pub record InquiryDeviceResult : Type 0 where
  pub vendor_identification : List ℕ
  pub product_identification : List ℕ
  pub product_revision_level : List ℕ
  pub drive_serial_number : List ℕ

pub record Driver (W : Type 0) : Type 0 where
  pub driving_type : DrivingType
  -- protocol, com_id, rw, buffer, len, timeout
  pub do_security_command : ℕ → ℕ → Bool → List ℕ → ℕ → ℕ → W → DparmResult × List ℕ × W
  -- the command; its data comes back
  pub do_nvme_admin_passthru : NvmeAdminCmd → W → DparmReturn ℕ × List ℕ × W
  -- rw, dma, registers, buffer, data_bytes, timeout_secs
  pub do_taskfile_cmd : Bool → Dma → Tf → List ℕ → ℕ → ℕ → W → DparmResult × Tf × List ℕ × W
  pub has_specific_nvme_get_log_page : Bool
  -- nsid, log_id, rae, data_len, buffer
  pub do_nvme_get_log_page : ℕ → ℕ → Bool → ℕ → List ℕ → W → DparmResult × List ℕ × W

-- The methods that a class of drivers inherits.
abbrev pub default_driver : {W : Type 0} → DrivingType → Driver W
default_driver t = record {
  driving_type = t;
  do_security_command = λ protocol com_id write buffer len timeout w. (failed not_impl, buffer, w);
  do_nvme_admin_passthru = λ cmd w. (returning (failed not_supported) 0, cmd.addr, w);
  do_taskfile_cmd = λ write dma tf buffer n timeout w. (failed not_supported, tf, buffer, w);
  has_specific_nvme_get_log_page = false;
  do_nvme_get_log_page = λ nsid log_id rae n buffer w. (failed not_impl, buffer, w);
}

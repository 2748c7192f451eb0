-- ===== src/Linux/Nvme.antt =====
-- src/plat-linux/drivers/nvme_driver.cc: the driver of NVMe drives over the system calls, which are
-- a parameter.
use jcu_dparm.Common.{ℕ, List, [], replicate, Option, none, some, if◌then◌else◌}
use jcu_dparm.Common.{◌==◌, ltb}
use jcu_dparm.Err.{DparmReturn, is_ok, returning, sys, ioctl_failed}
use jcu_dparm.Err.{nvme_failed, DparmCode}

-- `nvme_passthru_cmd_t`, and the ioctl structures of the same fields. `addr` stands for the bytes
-- that it points at.
pub record PassthruCmd : Type 0 where
  pub opcode : ℕ
  pub flags : ℕ
  pub rsvd1 : ℕ
  pub nsid : ℕ
  pub cdw2 : ℕ
  pub cdw3 : ℕ
  pub metadata : ℕ
  pub addr : List ℕ
  pub metadata_len : ℕ
  pub data_len : ℕ
  pub cdw10 : ℕ
  pub cdw11 : ℕ
  pub cdw12 : ℕ
  pub cdw13 : ℕ
  pub cdw14 : ℕ
  pub cdw15 : ℕ
  pub timeout_ms : ℕ
  pub result : ℕ

-- `nvme_user_io_t`.
pub record UserIo : Type 0 where
  pub opcode : ℕ
  pub flags : ℕ
  pub control : ℕ
  pub nblocks : ℕ
  pub rsvd : ℕ
  pub metadata : ℕ
  pub addr : List ℕ
  pub slba : ℕ
  pub dsmgmt : ℕ
  pub reftag : ℕ
  pub apptag : ℕ
  pub appmask : ℕ

-- `nvme_admin_cmd_t identify_cmd = { 0 }`
abbrev pub zero_passthru : PassthruCmd
zero_passthru = record {
  opcode = 0;
  flags = 0;
  rsvd1 = 0;
  nsid = 0;
  cdw2 = 0;
  cdw3 = 0;
  metadata = 0;
  addr = [];
  metadata_len = 0;
  data_len = 0;
  cdw10 = 0;
  cdw11 = 0;
  cdw12 = 0;
  cdw13 = 0;
  cdw14 = 0;
  cdw15 = 0;
  timeout_ms = 0;
  result = 0;
}

-- What a system call returns: -1 with an errno, or a number that is not negative.
pub data SysResult : Type 0 where
  sys_failed : ℕ → SysResult
  returned : ℕ → SysResult

-- The calls on the device file. The passthrough calls also return the bytes behind `addr`.
pub record NvmeOs (W : Type 0) : Type 0 where
  pub open_file : W → SysResult × W
  pub close_file : ℕ → W → W
  pub ioctl_id : ℕ → W → SysResult × W
  pub ioctl_admin_cmd : ℕ → PassthruCmd → W → SysResult × List ℕ × W
  pub ioctl_io_cmd : ℕ → PassthruCmd → W → SysResult × List ℕ × W
  pub ioctl_submit_io : ℕ → UserIo → W → SysResult × List ℕ × W

-- The three results of a passthrough.
unfoldable pub passthru_result : SysResult → DparmReturn ℕ
passthru_result (sys_failed e) =
    returning (record { code = ioctl_failed; sys_error = e; drive_status = 0 }) 0
passthru_result (returned rc) =
    if rc == 0
    then returning (record { code = DparmCode.ok; sys_error = 0; drive_status = rc }) rc
    else returning (record { code = nvme_failed; sys_error = 0; drive_status = rc }) 0

pub record NvmeHandle : Type 0 where
  pub fd : ℕ
  pub ns_id : ℕ
  pub nvme_identify_device_buf : List ℕ

module _ {W : Type 0} (os : NvmeOs W) where
  -- The structure of the ioctl has the fields of the command, which are copied one by one; its
  -- `result` is not copied back.
  unfoldable pub do_nvme_admin_passthru : ℕ → PassthruCmd → W → DparmReturn ℕ × List ℕ × W
  unfolding passthru_result
  do_nvme_admin_passthru fd cmd w =
      let (rc, bytes, w') = os.ioctl_admin_cmd fd cmd w in (passthru_result rc, bytes, w')

  unfoldable pub do_nvme_io_passthru : ℕ → PassthruCmd → W → DparmReturn ℕ × List ℕ × W
  unfolding passthru_result
  do_nvme_io_passthru fd cmd w =
      let (rc, bytes, w') = os.ioctl_io_cmd fd cmd w in (passthru_result rc, bytes, w')

  unfoldable pub do_nvme_io : ℕ → UserIo → W → DparmReturn ℕ × List ℕ × W
  unfolding passthru_result
  do_nvme_io fd io w =
      let (rc, bytes, w') = os.ioctl_submit_io fd io w in (passthru_result rc, bytes, w')

  unfoldable pub read_identify : NvmeHandle → W → DparmReturn ℕ × NvmeHandle × W
  unfolding do_nvme_admin_passthru
  read_identify h w =
      let cmd = record zero_passthru {
        opcode = 0x06;
        addr = replicate 4096 0;
        data_len = 4096;
        cdw10 = 1;
      } in
      let (r, bytes, w') = do_nvme_admin_passthru h.fd cmd w in
      (r, if is_ok r.result then record h { nvme_identify_device_buf = bytes } else h, w')

  unfoldable pub close_handle : NvmeHandle → W → NvmeHandle × W
  close_handle h w = if ltb 0 h.fd then (record h { fd = 0 }, os.close_file h.fd w) else (h, w)

  abbrev pub close_if_positive : ℕ → W → W
  close_if_positive fd w = if ltb 0 fd then os.close_file fd w else w

  abbrev pub sys_error_result : ℕ → DparmReturn (Option NvmeHandle)
  sys_error_result e = returning (record { code = sys; sys_error = e; drive_status = 0 }) none

  -- `NvmeDriver::open`, once the file is open, and from its beginning.
  unfoldable pub open_fd : ℕ → W → DparmReturn (Option NvmeHandle) × W
  unfolding read_identify
  open_fd fd w =
      let (id, w') = os.ioctl_id fd w in
      elim id [
        | sys_failed e ↦ (sys_error_result e, close_if_positive fd w')
        | returned nsid ↦
            (let (r, h, w'') =
                read_identify (record { fd = fd; ns_id = nsid; nvme_identify_device_buf = [] })
                  w' in
              (returning r.result (some h), w''))
      ]

  unfoldable pub open_nvme : W → DparmReturn (Option NvmeHandle) × W
  unfolding open_fd
  open_nvme w =
      let (file, w') = os.open_file w in
      elim file [ sys_failed e ↦ (sys_error_result e, w') | returned fd ↦ open_fd fd w' ]

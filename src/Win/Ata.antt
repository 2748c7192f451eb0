-- ===== src/Win/Ata.antt =====
-- src/plat-win/drivers/ata_driver.cc: the driver over IOCTL_ATA_PASS_THROUGH_DIRECT and
-- IOCTL_ATA_PASS_THROUGH, which are a parameter. A null pointer to data is `none`; data that is
-- given has at least `data_bytes` bytes.
pub mod Outcomes
use jcu_dparm.Common.{ℕ, List, [], ◌∷◌, ◌++◌, take, drop, replicate, get_or, not, bit_and, bit_or}
use jcu_dparm.Common.{Bool, true, false, Option, none, some, if◌then◌else◌, ◌==◌}
use jcu_dparm.Err.{DparmResult, DparmReturn, failed, success, ata_failed}
use jcu_dparm.Ata.{Tf, zero_tf}
use jcu_dparm.Drive.Driver.{Driver, DrivingType, default_driver}
use jcu_dparm.Win.Handle.{Files, WinHandle, sys_error_of, open_identified}

-- The fields of `ATA_PASS_THROUGH_EX` and `ATA_PASS_THROUGH_DIRECT` that the code sets; the path,
-- the target and the lun are 0. The flags are ATA_FLAGS_DATA_OUT against ATA_FLAGS_DATA_IN, and
-- ATA_FLAGS_48BIT_COMMAND.
pub record AtaParams : Type 0 where
  pub timeout_value : ℕ
  pub is_data_out : Bool
  pub is_48bit : Bool
  pub previous_task_file : List ℕ
  pub current_task_file : List ℕ
  pub data_transfer_length : ℕ

-- What a call leaves: whether it succeeded, `GetLastError`, and the current task file of the
-- structure that was passed in and out.
pub record AtaReply : Type 0 where
  pub is_success : Bool
  pub last_error : ℕ
  pub current_task_file : List ℕ

-- The first call works on the memory of the caller, the second on a copy.
pub record AtaCalls (W : Type 0) : Type 0 where
  pub pass_through_direct : ℕ → AtaParams → Option (List ℕ) → W → AtaReply × Option (List ℕ) × W
  pub pass_through : ℕ → AtaParams → List ℕ → W → AtaReply × List ℕ × W

-- `if (data && data_bytes && !rw) memset(data, 0, data_bytes)`
abbrev pub zeroed : Bool → ℕ → Option (List ℕ) → Option (List ℕ)
zeroed write n none = none
zeroed true n (some d) = some d
zeroed false n (some d) = some (replicate n 0 ++ drop n d)

-- The part of `ata_buf` behind the structure.
abbrev pub sent_copy : Bool → ℕ → Option (List ℕ) → List ℕ
sent_copy write n none = replicate n 0
sent_copy true n (some d) = take n d
sent_copy false n (some d) = replicate n 0

abbrev pub copied_back : Bool → ℕ → List ℕ → Option (List ℕ) → Option (List ℕ)
copied_back write n buffer none = none
copied_back true n buffer (some d) = some d
copied_back false n buffer (some d) = some (take n buffer ++ drop n d)

unfoldable pub ata_params : Bool → Tf → ℕ → ℕ → AtaParams
ata_params write tf data_bytes timeout_secs =
    let wide = not (tf.is_lba48 == 0) in
    record {
      timeout_value = timeout_secs;
      is_data_out = write;
      is_48bit = wide;
      previous_task_file =
          if wide
          then tf.hob.feat ∷ tf.hob.nsect ∷ tf.hob.lbal ∷ tf.hob.lbam ∷ tf.hob.lbah ∷ 0 ∷ 0 ∷ 0 ∷ []
          else replicate 8 0;
      current_task_file =
          tf.lob.feat ∷ tf.lob.nsect ∷ tf.lob.lbal ∷ tf.lob.lbam ∷ tf.lob.lbah ∷ tf.dev ∷ tf.command
          ∷ 0 ∷ [];
      data_transfer_length = data_bytes;
    }

-- The status is the register 6, where a request has its command.
unfoldable pub has_error : List ℕ → Bool
has_error task_file = not (bit_and (get_or task_file 6 0) (bit_or 0x01 0x08) == 0)

module _ {W : Type 0} (calls : AtaCalls W) (h : ℕ) where
  -- The second round. The structure is not copied back from the buffer, so the test of the status
  -- reads the request.
  unfoldable pub buffered_round :
      Bool → AtaParams → Option (List ℕ) → W → DparmResult × Option (List ℕ) × W
  unfolding has_error
  buffered_round write params data' w =
      let n = params.data_transfer_length in
      let cleared = zeroed write n data' in
      let (r, buffer, w') = calls.pass_through h params (sent_copy write n cleared) w in
      let back = if r.is_success then copied_back write n buffer cleared else cleared in
      if has_error params.current_task_file
      then (failed ata_failed, back, w')
      else (if r.is_success then success else sys_error_of r.last_error, back, w')

  -- `doTaskfileCmdImpl`, which reads neither `dma` nor the registers that come back.
  unfoldable pub do_taskfile_cmd_impl :
      Bool → Tf → Option (List ℕ) → ℕ → ℕ → W → DparmResult × Option (List ℕ) × W
  unfolding ata_params has_error buffered_round
  do_taskfile_cmd_impl write tf data' data_bytes timeout_secs w =
      let params = ata_params write tf data_bytes timeout_secs in
      let (r, data'', w') = calls.pass_through_direct h params (zeroed write data_bytes data') w in
      if has_error r.current_task_file
      then (failed ata_failed, data'', w')
      else if r.is_success
      then (success, data'', w')
      else buffered_round write params data'' w'

abbrev pub bytes_of : Option (List ℕ) → List ℕ
bytes_of none = []
bytes_of (some d) = d

module _ {W : Type 0} (files : Files W) (calls : AtaCalls W) where
  -- IDENTIFY DEVICE into a structure of 512 zeros, within 3 seconds.
  unfoldable pub ata_identify : ℕ → W → DparmResult × List ℕ × W
  unfolding do_taskfile_cmd_impl
  ata_identify h w =
      let (r, data', w') =
        do_taskfile_cmd_impl calls h false (record zero_tf { command = 0xec })
          (some (replicate 512 0)) 512 3 w in
      (r, bytes_of data', w')

  unfoldable pub open_ata : List ℕ → W → DparmReturn (Option WinHandle) × W
  unfolding ata_identify open_identified
  open_ata path w = open_identified files ata_identify path path w

-- A null pointer comes with no bytes.
abbrev pub pointer_to : List ℕ → Option (List ℕ)
pointer_to [] = none
pointer_to (x ∷ xs) = some (x ∷ xs)

-- `AtaDrvierHandle`: the registers are passed by pointer, and are not written.
unfoldable pub ata_driver : {W : Type 0} → AtaCalls W → ℕ → Driver W
unfolding do_taskfile_cmd_impl
ata_driver calls h = record (default_driver DrivingType.atapi) {
  do_taskfile_cmd = λ write dma tf buffer n timeout w.
      (let (r, data', w') = do_taskfile_cmd_impl calls h write tf (pointer_to buffer) n timeout w in
        (r, tf, bytes_of data', w'));
}

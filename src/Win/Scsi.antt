-- ===== src/Win/Scsi.antt =====
-- src/plat-win/drivers/scsi_driver.cc: the driver over IOCTL_SCSI_PASS_THROUGH_DIRECT and
-- IOCTL_SCSI_PASS_THROUGH, which are a parameter. The two functions of the file repeat the rounds
-- of the call; here they share them.
pub mod Layout
pub mod Outcomes
use jcu_dparm.Common.{ℕ, List, [], ◌∷◌, ◌++◌, replicate, not, u16, ◌>>>◌, u8, le32, swap16, swap32}
use jcu_dparm.Common.{Bool, true, false, Option, none, some, if◌then◌else◌, ◌==◌, ◌&&◌}
use jcu_dparm.Err.{DparmResult, DparmReturn, failed, success, not_supported}
use jcu_dparm.Ata.{Tf, zero_tf}
use jcu_dparm.Drive.Driver.{Driver, DrivingType, default_driver}
use jcu_dparm.Win.Handle.{Files, WinHandle, sys_error_of, open_identified}
use jcu_dparm.Win.Ata.{zeroed, sent_copy, copied_back, bytes_of, pointer_to}

-- The fields of the two ATA PASS-THROUGH blocks that the code sets, by their names in the source;
-- all others are 0.
pub record AtaPassthrough16 : Type 0 where
  pub features7_0 : ℕ
  pub features15_8 : ℕ
  pub sector_count7_0 : ℕ
  pub sector_count15_8 : ℕ
  pub lba_low7_0 : ℕ
  pub lba_low15_8 : ℕ
  pub lba_mid7_0 : ℕ
  pub lba_mid15_8 : ℕ
  pub lba_high7_0 : ℕ
  pub lba_high15_8 : ℕ
  pub device : ℕ
  pub command : ℕ

pub record AtaPassthrough12 : Type 0 where
  pub features : ℕ
  pub sector_count : ℕ
  pub lba_low : ℕ
  pub lba_mid : ℕ
  pub lba_high : ℕ
  pub device : ℕ
  pub command : ℕ

-- The command block: one of the two, or the bytes of `_SCSI_SECURITY_PROTOCOL`.
pub data Cdb : Type 0 where
  ata16 : AtaPassthrough16 → Cdb
  ata12 : AtaPassthrough12 → Cdb
  security : List ℕ → Cdb

pub record ScsiParams : Type 0 where
  pub time_out_value : ℕ
  pub is_data_out : Bool
  pub cdb : Cdb
  pub data_transfer_length : ℕ

-- `Valid` and `SenseKey` of the sense data.
pub record SenseData : Type 0 where
  pub valid : Bool
  pub sense_key : ℕ

pub record ScsiReply : Type 0 where
  pub is_success : Bool
  pub last_error : ℕ
  pub sense : SenseData

pub record ScsiCalls (W : Type 0) : Type 0 where
  pub pass_through_direct : ℕ → ScsiParams → Option (List ℕ) → W → ScsiReply × Option (List ℕ) × W
  pub pass_through : ℕ → ScsiParams → List ℕ → W → ScsiReply × List ℕ × W

unfoldable pub ata_cdb : Tf → Cdb
ata_cdb tf =
    if not (tf.is_lba48 == 0)
    then ata16 (record {
      features7_0 = tf.lob.feat;
      features15_8 = tf.hob.feat;
      sector_count7_0 = tf.lob.nsect;
      sector_count15_8 = tf.hob.nsect;
      lba_low7_0 = tf.lob.lbal;
      lba_low15_8 = tf.hob.lbal;
      lba_mid7_0 = tf.lob.lbam;
      lba_mid15_8 = tf.hob.lbam;
      lba_high7_0 = tf.lob.lbah;
      lba_high15_8 = tf.hob.lbah;
      device = tf.dev;
      command = tf.command;
    })
    else ata12 (record {
      features = tf.lob.feat;
      sector_count = tf.lob.nsect;
      lba_low = tf.lob.lbal;
      lba_mid = tf.lob.lbam;
      lba_high = tf.lob.lbah;
      device = tf.dev;
      command = tf.command;
    })

-- The bytes of a `uint16_t` in the memory of the host.
abbrev pub le16 : ℕ → List ℕ
le16 x = u8 x ∷ u8 (x >>> 8) ∷ []

-- SCSIOP_SECURITY_PROTOCOL_OUT and SCSIOP_SECURITY_PROTOCOL_IN. `rev_1`, `inc_512`, `rev_2`,
-- `rev_3` and `control` stay 0.
unfoldable pub security_cdb : Bool → ℕ → ℕ → ℕ → List ℕ
security_cdb write protocol com_id data_bytes =
    (if write then 0xb5 else 0xa2)
    ∷ protocol
    ∷ (le16 (swap16 com_id) ++ (0 ∷ 0 ∷ (le32 (swap32 data_bytes) ++ (0 ∷ 0 ∷ []))))

-- The end of both functions, with data or without.
unfoldable pub scsi_result : ScsiReply → Option (List ℕ) → ℕ → DparmResult
scsi_result r none n = if r.is_success then success else sys_error_of r.last_error
scsi_result r (some d) n =
    if not r.is_success
    then sys_error_of r.last_error
    else if not (n == 0) && (r.sense.valid && not (r.sense.sense_key == 0))
    then failed not_supported
    else success

module _ {W : Type 0} (calls : ScsiCalls W) (h : ℕ) where
  -- The two rounds. The second one works on a copy, and is made if the first one fails.
  unfoldable pub pass : Bool → ScsiParams → Option (List ℕ) → W → DparmResult × Option (List ℕ) × W
  pass write params data' w =
      let n = params.data_transfer_length in
      let (r, data'', w') = calls.pass_through_direct h params (zeroed write n data') w in
      if r.is_success
      then (scsi_result r data' n, data'', w')
      else (let cleared = zeroed write n data'' in
          let (r', buffer, w'') = calls.pass_through h params (sent_copy write n cleared) w' in
          let back = if r'.is_success then copied_back write n buffer cleared else cleared in
          (scsi_result r' data' n, back, w''))

  -- `doTaskfileCmdImpl`, which reads neither `dma` nor any register that comes back.
  unfoldable pub scsi_taskfile_cmd :
      Bool → Tf → Option (List ℕ) → ℕ → ℕ → W → DparmResult × Option (List ℕ) × W
  unfolding ata_cdb pass
  scsi_taskfile_cmd write tf data' data_bytes timeout_secs w =
      pass write
        (record {
          time_out_value = timeout_secs;
          is_data_out = write;
          cdb = ata_cdb tf;
          data_transfer_length = data_bytes;
        })
        data' w

  unfoldable pub do_security_command_impl :
      ℕ → ℕ → Bool → Option (List ℕ) → ℕ → ℕ → W → DparmResult × Option (List ℕ) × W
  unfolding security_cdb pass
  do_security_command_impl protocol com_id write data' data_bytes timeout_secs w =
      pass write
        (record {
          time_out_value = timeout_secs;
          is_data_out = write;
          cdb = security (security_cdb write protocol com_id data_bytes);
          data_transfer_length = data_bytes;
        })
        data' w

-- `ScsiDriverHandle`.
unfoldable pub scsi_driver : {W : Type 0} → ScsiCalls W → ℕ → Driver W
unfolding scsi_taskfile_cmd do_security_command_impl
scsi_driver calls h = record (default_driver DrivingType.atapi) {
  do_taskfile_cmd = λ write dma tf buffer n timeout w.
      (let (r, data', w') = scsi_taskfile_cmd calls h write tf (pointer_to buffer) n timeout w in
        (r, tf, bytes_of data', w'));
  do_security_command = λ protocol com_id write buffer n timeout w.
      (let (r, data', w') =
          do_security_command_impl calls h protocol com_id write (pointer_to buffer) n timeout w in
        (r, bytes_of data', w'));
}

module _ {W : Type 0} (files : Files W) (calls : ScsiCalls W) where
  unfoldable pub scsi_identify : ℕ → W → DparmResult × List ℕ × W
  unfolding scsi_taskfile_cmd
  scsi_identify h w =
      let (r, data', w') =
        scsi_taskfile_cmd calls h false (record zero_tf { command = 0xec }) (some (replicate 512 0))
          512 3 w in
      (r, bytes_of data', w')

  unfoldable pub open_scsi : List ℕ → W → DparmReturn (Option WinHandle) × W
  unfolding scsi_identify open_identified
  open_scsi path w = open_identified files scsi_identify path path w

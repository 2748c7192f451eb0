-- ===== src/Drive/Sanitize.antt =====
-- src/drive_handle_sanitize.cc: the registers of an ATA sanitize request and what they carry back,
-- the NVMe sanitize command, and the estimates in seconds.
pub mod Key
pub mod Nvme
use jcu_dparm.Common.{
  ℕ, ◌+◌, ◌-◌, ◌*◌, ◌/◌, ◌%◌, ◌^◌, List, [], Bool, true, false, Option, none, some,
}
use jcu_dparm.Common.{
  if◌then◌else◌, ltb, leb, ◌==◌, bit_and, bit_or, u8, u16, u32, ◌<<<◌, ◌>>>◌, ◌||◌,
}
use jcu_dparm.Err.{DparmResult, DparmReturn, is_ok, returning, success}
use jcu_dparm.Ata.{Tf, LbaRegs, tf_init}
use jcu_dparm.Drive.Driver.{Driver, Dma, NvmeAdminCmd, zero_cmd}

pub data SanitizeFeature : Type 0 where
  status anti_freeze_lock freeze_lock crypto_scramble block_erase overwrite : SanitizeFeature

-- `overwrite_pass` is an `int`, as the number of its 32 bits.
pub record SanitizeOptions : Type 0 where
  pub feature : SanitizeFeature
  pub overwrite_pass : ℕ
  pub overwrite_pattern : ℕ
  pub no_deallocate : Bool

-- An `int32_t`: a number, or `negative k` for -k.
pub data Seconds : Type 0 where
  reported : ℕ → Seconds
  negative : ℕ → Seconds

unfoldable pub ata_est_to_seconds : ℕ → Bool → Seconds
ata_est_to_seconds time_required extended =
    if time_required == 0
    then negative 1
    else if extended
    then (if ltb time_required 32767 then reported (time_required * 2) else negative 3)
    else if ltb time_required 255
    then reported (time_required * 2 * 60)
    else negative 2

-- The cast to `int32_t` wraps.
unfoldable pub nvme_est_to_seconds : ℕ → Seconds
nvme_est_to_seconds value =
    if value == 0xffffffff
    then negative 1
    else if ltb value (2 ^ 31)
    then reported value
    else negative (2 ^ 32 - value)

-- The feature register, and the key in the LBA registers.
unfoldable pub feature_register : SanitizeFeature → ℕ
feature_register SanitizeFeature.status = 0x00
feature_register SanitizeFeature.anti_freeze_lock = 0x40
feature_register SanitizeFeature.freeze_lock = 0x20
feature_register SanitizeFeature.crypto_scramble = 0x11
feature_register SanitizeFeature.block_erase = 0x12
feature_register SanitizeFeature.overwrite = 0x14

unfoldable pub sanitize_key : SanitizeOptions → ℕ
sanitize_key o = elim o.feature [
  | SanitizeFeature.status ↦ 0
  | SanitizeFeature.anti_freeze_lock ↦ 0x416E7469
  | SanitizeFeature.freeze_lock ↦ 0x46724C6B
  | SanitizeFeature.crypto_scramble ↦ 0x43727970
  | SanitizeFeature.block_erase ↦ 0x426B4572
  | SanitizeFeature.overwrite ↦ bit_or (0x00004F57 <<< 32) o.overwrite_pattern
]

-- `tf.lob.nsect`, which `tf_init` has set to 0.
unfoldable pub sanitize_count : SanitizeOptions → ℕ
sanitize_count o = elim o.feature [
  | SanitizeFeature.overwrite ↦ bit_or (bit_and o.overwrite_pass 0x0f) 0x80
  | _ ↦ 0
]

unfoldable pub sanitize_tf : SanitizeOptions → Tf
sanitize_tf o =
    let lba = sanitize_key o in
    let tf = tf_init 0xb4 0 0 in
    record tf {
      is_lba48 = 1;
      lob = record {
        feat = feature_register o.feature;
        nsect = sanitize_count o;
        lbal = u8 lba;
        lbam = u8 (lba >>> 8);
        lbah = u8 (lba >>> 16);
      };
      hob = record {
        feat = 0;
        nsect = if o.no_deallocate then 0x80 else 0;
        lbal = u8 (lba >>> 24);
        lbam = u8 (lba >>> 32);
        lbah = u8 (lba >>> 40);
      };
    }

-- The progress is a `float`: `some n` stands for n / 65536, and `none` for -1.
pub record SanitizeCmdResult : Type 0 where
  pub raw_state : ℕ
  pub sanitize_states : ℕ
  pub progress : Option ℕ

abbrev pub state_flag : ℕ → ℕ → ℕ → ℕ
state_flag register mask states = if bit_and register mask == 0 then 0 else states

-- The result in the registers that the drive returned.
unfoldable pub ata_sanitize_result : Tf → SanitizeCmdResult
ata_sanitize_result tf =
    let count = tf.hob.nsect in
    let lba_progress = bit_or tf.lob.lbal (tf.lob.lbam <<< 8) in
    record {
      raw_state = count;
      sanitize_states =
          bit_or
            (bit_or (bit_or (state_flag count 0x80 0x11) (state_flag count 0x40 0x04))
              (state_flag count 0x20 0x02))
            (state_flag count 0x10 0x100);
      progress = if lba_progress == 0xffff then none else some lba_progress;
    }

-- The ATA branch of `doSanitizeCmd`; there is no result where the command fails.
unfoldable pub ata_sanitize :
    {W : Type 0} → Driver W → SanitizeOptions → W → DparmReturn (Option SanitizeCmdResult) × W
ata_sanitize driver o w =
    let (dr, tf, data', w') = driver.do_taskfile_cmd false Dma.unset (sanitize_tf o) [] 0 15 w in
    if is_ok dr
    then (
      returning (record success { drive_status = tf.status }) (some (ata_sanitize_result tf)),
      w',
    )
    else (
      returning (record { code = dr.code; sys_error = dr.sys_error; drive_status = 0 }) none,
      w',
    )

-- The command of the NVMe branch; `none` where it asks for the status, or supports no such feature.
unfoldable pub nvme_sanitize_cmd : SanitizeOptions → Option NvmeAdminCmd
nvme_sanitize_cmd o =
    let start = if o.no_deallocate then 0x200 else 0 in
    let with = λ (cdw10 pattern : ℕ).
      some (record zero_cmd { opcode = 0x84; cdw10 = cdw10; cdw11 = pattern }) in
    elim o.feature [
      | SanitizeFeature.crypto_scramble ↦ with (bit_or start 0x04) 0
      | SanitizeFeature.block_erase ↦ with (bit_or start 0x02) 0
      | SanitizeFeature.overwrite ↦
          with
            (bit_or (bit_or start 0x03) (
              if (o.overwrite_pass == 0) || leb (2 ^ 31) o.overwrite_pass
              then 1 <<< 4
              else u32 (bit_and o.overwrite_pass 0x0f <<< 4)))
            o.overwrite_pattern
      | _ ↦ none
    ]

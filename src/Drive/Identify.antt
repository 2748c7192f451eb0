-- ===== src/Drive/Identify.antt =====
-- `parseIdentifyDevice` and `afterOpen` of src/drive_handle_base.cc: what a handle knows of its
-- drive. The rest of the virtual methods of a driver that they call is a second record.
pub mod Total
use jcu_dparm.Common.{ℕ, zero, suc, ◌+◌, ◌*◌, ◌/◌, ◌%◌, ◌^◌, List, [], ◌∷◌}
use jcu_dparm.Common.{Bool, true, false, not, ◌&&◌, ◌||◌, if◌then◌else◌, ◌==◌, ltb, bit_and}
use jcu_dparm.Common.{Outcome, done, ◌>>=◌, length, take, drop, read_bytes}
use jcu_dparm.Err.{DparmResult, DparmReturn, is_ok}
use jcu_dparm.Intl.{fix_ata_string_order, trim_string, read_string_range}
use jcu_dparm.Ata.Identify
use jcu_dparm.Ata.Identify.{byte_at}
use jcu_dparm.Tcg.Device.{Handle}
use jcu_dparm.Drive.Discovery.{TcgInfo, tcg_discovery0}
use jcu_dparm.Drive.Driver.{InquiryDeviceResult, DrivingType, is_atapi, is_nvme}

-- `DriveInfo` without the fields of the discovery, the paths and the platform's numbers. The two
-- identify structures are their bytes.
pub record DriveInfo : Type 0 where
  pub driving_type : DrivingType
  pub model : List ℕ
  pub serial : List ℕ
  pub firmware_revision : List ℕ
  pub raw_serial : List ℕ
  pub ata_identify : List ℕ
  pub nvme_identify_ctrl : List ℕ
  pub is_ssd : Bool
  pub ssd_check_weight : ℕ
  pub smart_enabled : Bool
  pub support_sanitize_crypto_erase : ℕ
  pub support_sanitize_block_erase : ℕ
  pub support_sanitize_overwrite : ℕ

pub record Identity (W : Type 0) : Type 0 where
  pub driving_type : DrivingType
  pub merge_drive_info : DriveInfo → DriveInfo
  pub ata_identify_device_buf : List ℕ
  pub nvme_identify_device_buf : List ℕ
  pub inquiry_device_info : W → DparmReturn InquiryDeviceResult × W

-- The loop over `raw_serial`: the bytes of each word change places.
unfoldable pub swap_bytes : List ℕ → List ℕ
swap_bytes (x ∷ y ∷ rest) = y ∷ x ∷ swap_bytes rest
swap_bytes rest = rest

-- `data.…_supported ? n : 0`.
abbrev pub support : ℕ → Bool → ℕ
support n supported = if supported then n else 0

-- The three levels of an ATA drive.
unfoldable pub sanitize_level : List ℕ → Bool → ℕ
sanitize_level data' supported =
    if Identify.sanitize_feature_supported data'
    then support (if Identify.security_enabled data' then 1 else 2) supported
    else 0

abbrev pub ata_text : List ℕ → ℕ → Outcome (List ℕ)
ata_text field pairs = fix_ata_string_order field pairs true >>= λ text. done (trim_string text)

-- The ATA branch, from the test of the size on. The `memcpy` reads 512 bytes.
unfoldable pub parse_ata : List ℕ → DriveInfo → Outcome (ℕ × DriveInfo)
unfolding swap_bytes sanitize_level
parse_ata raw i =
    if ltb (length raw) 512
    then done (1, i)
    else (read_bytes 512 raw >>= λ data'.
        let rate = Identify.nominal_media_rotation_rate data' in
        let weight = if rate == 0 || rate == 1 then 1 else 0 in
        ata_text (Identify.model_number data') 20 >>= λ model.
        ata_text (Identify.firmware_revision data') 4 >>= λ firmware.
        ata_text (Identify.serial_number data') 10 >>= λ serial. done (
          0,
          record i {
            ata_identify = data';
            ssd_check_weight = weight;
            is_ssd = ltb 0 weight;
            model = model;
            firmware_revision = firmware;
            raw_serial = swap_bytes (Identify.serial_number data');
            serial = serial;
            smart_enabled =
                Identify.smart_commands_supported data' && Identify.smart_commands_active data';
            support_sanitize_block_erase =
                sanitize_level data' (Identify.block_erase_ext_command_supported data');
            support_sanitize_crypto_erase =
                sanitize_level data' (Identify.crypto_scramble_ext_command_supported data');
            support_sanitize_overwrite =
                sanitize_level data' (Identify.overwrite_ext_command_supported data');
          },
        ))

-- The NVMe branch, whose `memcpy` reads 4096 bytes. `sn`, `mn` and `fr` are at bytes 4, 24 and 64, and `sanicap` at byte 328.
unfoldable pub parse_nvme : List ℕ → DriveInfo → Outcome (ℕ × DriveInfo)
parse_nvme raw i =
    if ltb (length raw) 4096
    then done (1, i)
    else (read_bytes 4096 raw >>= λ data'.
        let sanicap = byte_at data' 328 in
        read_string_range (take 20 (drop 4 data')) 0 20 true >>= λ serial.
        read_string_range (take 40 (drop 24 data')) 0 40 true >>= λ model.
        read_string_range (take 8 (drop 64 data')) 0 8 true >>= λ firmware. done (
          0,
          record i {
            nvme_identify_ctrl = data';
            raw_serial = take 20 (drop 4 data');
            serial = serial;
            model = model;
            firmware_revision = firmware;
            ssd_check_weight = 0;
            is_ssd = true;
            smart_enabled = true;
            support_sanitize_crypto_erase = support 1 (not (bit_and sanicap 0x01 == 0));
            support_sanitize_block_erase = support 1 (not (bit_and sanicap 0x02 == 0));
            support_sanitize_overwrite = support 1 (not (bit_and sanicap 0x04 == 0));
          },
        ))

-- What `afterOpen` calls: the driver's methods, and the security command of the discovery, whose
-- buffer has `room` bytes behind its alignment.
pub record DriveCalls (W : Type 0) : Type 0 where
  pub driver : Identity W
  pub handle : Handle W
  pub room : ℕ

module _ {W : Type 0} (driver : Identity W) where
  unfoldable pub parse_identify_device : DriveInfo → Outcome (ℕ × DriveInfo)
  unfolding parse_ata parse_nvme
  parse_identify_device i =
      let merged = driver.merge_drive_info i in
      if is_atapi driver.driving_type
      then parse_ata driver.ata_identify_device_buf merged
      else if is_nvme driver.driving_type
      then parse_nvme driver.nvme_identify_device_buf merged
      else done (0, merged)

  abbrev pub is_empty_text : List ℕ → Bool
  is_empty_text [] = true
  is_empty_text (x ∷ xs) = false

  -- `afterOpen` up to the discovery.
  unfoldable pub identify_drive : DriveInfo → W → Outcome (DriveInfo × W)
  unfolding parse_identify_device
  identify_drive i w =
      parse_identify_device (record i { driving_type = driver.driving_type }) >>= λ p.
      (if is_empty_text p.1.serial
        then (let (res, w') = driver.inquiry_device_info w in
            if is_ok res.result
            then done (
              record p.1 {
                serial = res.value.drive_serial_number;
                model = res.value.product_identification;
              },
              w',
            )
            else done (p.1, w'))
        else done (p.1, w))

-- `afterOpen`. The result of the discovery is dropped.
unfoldable pub after_open :
    {W : Type 0} → DriveCalls W → DriveInfo → TcgInfo → W → Outcome (DriveInfo × TcgInfo × W)
unfolding identify_drive tcg_discovery0
after_open calls i t w = identify_drive calls.driver i w >>= λ p.
    tcg_discovery0 calls.handle calls.room t p.1 >>= λ d. done (p.0, d.1, d.2)

-- ===== src/Drive/Runs/Data.antt =====
-- The theorems on capacity, SMART, sanitize and identify data at concrete input.
use jcu_dparm.Common.{ℕ, ◌+◌, ◌%◌, ◌≡◌, refl, arith, List, [], ◌∷◌, replicate}
use jcu_dparm.Common.{false, some, done}
use jcu_dparm.Err.{success, returning}
use jcu_dparm.Drive.Driver.{DrivingType}
use jcu_dparm.Drive.Sanitize
use jcu_dparm.Ata.{Tf}
use jcu_dparm.Common.{◌==◌, ◌&&◌, if◌then◌else◌, map}
use jcu_dparm.Drive.Capacity.{native_max, native_address, native_max_lem}
use jcu_dparm.Drive.Smart.{SmartStatus, parse_smart, attributes_number}
use jcu_dparm.Drive.Smart.Attributes.{listed, without_threshold, parse_smart_lem}
use jcu_dparm.Drive.Driver.{InquiryDeviceResult}
use jcu_dparm.Drive.Identify.{DriveInfo, Identity, parse_identify_device}
use jcu_dparm.Drive.Identify.Total.{parse_identify_device-IsDone}

-- A drive whose highest address ends in 0x01ff: the number of sectors is 256 short.
abbrev last_sector : Tf
last_sector = record {
  dev = 0x40;
  command = 0x27;
  error = 0;
  status = 0x50;
  is_lba48 = 1;
  lob = record { feat = 0; nsect = 0; lbal = 0xff; lbam = 0x01; lbah = 0x02 };
  hob = record { feat = 0; nsect = 0; lbal = 0x03; lbam = 0; lbah = 0 };
}

native_max_now : native_max last_sector ≡ 0x03020100
unfolding native_max
native_max_now = refl

native_max_lem_example :
    native_max last_sector + (if (0xff == 255) && (0x01 % 2 == 1) then 256 else 0)
    ≡ native_address last_sector + 1
native_max_lem_example =
    native_max_lem last_sector
      record { lbal_in = omega arith; lbam_in = omega arith; lbah_in = omega arith }
      record { lbal_in = omega arith; lbam_in = omega arith; lbah_in = omega arith }

-- A table with one attribute, whose number is 9.
abbrev smart_values : List ℕ
smart_values = 1 ∷ 0 ∷ 9 ∷ 0x32 ∷ 0 ∷ 99 ∷ 98 ∷ 1 ∷ 2 ∷ replicate 503 0

abbrev smart_thresholds : List ℕ
smart_thresholds = 1 ∷ 0 ∷ 9 ∷ 10 ∷ replicate 508 0

parse_smart_lem_example :
    (s : SmartStatus) × (parse_smart smart_values smart_thresholds ≡ done s)
    × (map without_threshold s.attributes ≡ listed smart_values attributes_number 0)
parse_smart_lem_example = parse_smart_lem smart_values smart_thresholds

-- Half done.
abbrev sanitize_page : List ℕ
sanitize_page = 0 ∷ 0x80 ∷ 2 ∷ 0 ∷ replicate 28 0

abbrev no_state : Sanitize.SanitizeCmdResult
no_state = record { raw_state = 0; sanitize_states = 0; progress = some 0 }

abbrev new_info : DriveInfo
new_info = record {
  driving_type = DrivingType.unknown;
  model = [];
  serial = [];
  firmware_revision = [];
  raw_serial = [];
  ata_identify = [];
  nvme_identify_ctrl = [];
  is_ssd = false;
  ssd_check_weight = 0;
  smart_enabled = false;
  support_sanitize_crypto_erase = 0;
  support_sanitize_block_erase = 0;
  support_sanitize_overwrite = 0;
}

abbrev empty_inquiry : InquiryDeviceResult
empty_inquiry = record {
  vendor_identification = [];
  product_identification = [];
  product_revision_level = [];
  drive_serial_number = [];
}

abbrev ata_identity : Identity ℕ
ata_identity = record {
  driving_type = DrivingType.atapi;
  merge_drive_info = λ i. i;
  ata_identify_device_buf = replicate 512 0x41;
  nvme_identify_device_buf = [];
  inquiry_device_info = λ w. (returning success empty_inquiry, w);
}

parse_identify_device-IsDone_example :
    (p : ℕ × DriveInfo) × (parse_identify_device ata_identity new_info ≡ done p)
parse_identify_device-IsDone_example = parse_identify_device-IsDone ata_identity new_info

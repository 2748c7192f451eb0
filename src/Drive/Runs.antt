-- ===== src/Drive/Runs.antt =====
-- The theorems on the drive handle and the ATA registers at concrete input.
mod Data
use jcu_dparm.Common.{
  ◌≤◌, ◌<◌, ℕ, ◌+◌, ◌*◌, ◌/◌, ◌%◌, ◌^◌, ◌≡◌, ◌≢◌, refl, arith, List, [], ◌∷◌, ◌++◌, replicate, take,
  drop,
}
use jcu_dparm.Common.{true, false, some, All, done, stuck, swap16, swap32, length-replicate}
use jcu_dparm.Err.{success, returning}
use jcu_dparm.Ata.{tf_init, tf_to_lba, is_plain_op}
use jcu_dparm.Ata.Address.{tf_to_lba-tf_init}
use jcu_dparm.Tcg.Types.{TcgDeviceType}
use jcu_dparm.Tcg.Response
use jcu_dparm.Tcg.Device.{Handle, find_feature}
use jcu_dparm.Drive.Driver.{Driver, DrivingType}
use jcu_dparm.Drive.Security.{security_cmd, trusted_tf, security_fields}
use jcu_dparm.Drive.LogPage.{log_page_cmd, do_nvme_get_log_page, log_page_cmd_fields}
use jcu_dparm.Drive.LogPage.{do_nvme_get_log_page-ne-stuck, do_nvme_get_log_page_lem}
use jcu_dparm.Drive.Sanitize
use jcu_dparm.Drive.Sanitize.{SanitizeOptions, SanitizeFeature, sanitize_tf, sanitize_key}
use jcu_dparm.Drive.Sanitize.{ata_est_to_seconds}
use jcu_dparm.Drive.Sanitize.Key.{tf_to_lba-sanitize_tf, ata_est_to_seconds_lem}
use jcu_dparm.Drive.Discovery
use jcu_dparm.Drive.Discovery.Features.{IsPresent, IsConsistent, no_info-IsConsistent}
use jcu_dparm.Drive.Discovery.Features.{
  tcg_discovery0-IsConsistent, tcg_discovery0-ne-stuck, device_of-IsPresent,
}

tf_to_lba-tf_init_example : tf_to_lba (tf_init 0x25 0x123456789a 8) ≡ 0x123456789a
tf_to_lba-tf_init_example = tf_to_lba-tf_init 0x25 0x123456789a 8 (omega arith) plain
  where
    plain : is_plain_op 0x25 ≡ false
    plain = unfold is_plain_op in refl

-- A drive with a log page of 5000 bytes, which it serves at any offset.
abbrev page : List ℕ
page = replicate 5000 7

abbrev nvme_driver : Driver ℕ
nvme_driver = record {
  driving_type = DrivingType.nvme;
  do_security_command = λ protocol com_id rw buffer len timeout w. (success, buffer, w);
  do_nvme_admin_passthru = λ cmd w.
      (returning success 0, take cmd.data_len (drop (cmd.cdw12 + cmd.cdw13 * 2 ^ 32) page), w);
  do_taskfile_cmd = λ rw dma tf buffer data_bytes timeout_secs w. (success, tf, buffer, w);
  has_specific_nvme_get_log_page = false;
  do_nvme_get_log_page = λ nsid log_id rae data_len buffer w. (success, buffer, w);
}

do_nvme_get_log_page_lem_example :
    do_nvme_get_log_page nvme_driver 0xffffffff 2 false 4608 (replicate 4608 0) 0
    ≡ done (success, take 4608 page, 0)
do_nvme_get_log_page_lem_example =
    do_nvme_get_log_page_lem nvme_driver 0xffffffff 2 false 4608 page refl
      (omega (arith, length-replicate {A = ℕ} 5000 7)) (omega arith) (λ cmd w h. refl)
      (replicate 4608 0) 0 (length-replicate {A = ℕ} 4608 0)

-- A discovery with an Opal 2 feature and a locking feature.
abbrev announced : List ℕ
announced =
    0x00
    ∷ 0x00
    ∷ 0x00
    ∷ 0x30
    ∷ (replicate 28 0
        ++ (0x02 ∷ 0x03 ∷ 0x10 ∷ 0x04 ∷ 0x08 ∷ 0x00 ∷ 0x00 ∷ 0x01 ∷ 0x00 ∷ 0x02 ∷ 0x10 ∷ 0x04 ∷ 0x01
            ∷ 0x00 ∷ 0x00 ∷ 0x00 ∷ []))

abbrev discovered : Handle ℕ
discovered = record {
  do_security_command = λ send dma protocol com_id buffer len w. (success, announced, w);
  now = λ w. w;
  sleep_for = λ n w. w + n;
  next_int64 = λ w. (7, w);
  pbkdf2 = λ iteration key_length password. password;
}

abbrev found : Discovery.TcgInfo
found = record Discovery.no_info {
  tcg_support = Discovery.supported;
  tcg_locking = true;
  tcg_opal_v200 = true;
  tcg_raw_features =
      (0x0203, 0x02 ∷ 0x03 ∷ 0x10 ∷ 0x04 ∷ 0x08 ∷ 0x00 ∷ 0x00 ∷ 0x01 ∷ [])
      ∷ (0x0002, 0x00 ∷ 0x02 ∷ 0x10 ∷ 0x04 ∷ 0x01 ∷ 0x00 ∷ 0x00 ∷ 0x00 ∷ [])
      ∷ [];
}

discovery_now :
    Discovery.tcg_discovery0 discovered 2048 Discovery.no_info 0 ≡ done (success, found, 0)
unfolding Discovery.tcg_discovery0 Discovery.read_features Discovery.walk Discovery.set_flag
    Discovery.emplace find_feature Response.host_u32 swap16 swap32
discovery_now = refl

tcg_discovery0-IsConsistent_example : IsConsistent found
tcg_discovery0-IsConsistent_example =
    tcg_discovery0-IsConsistent discovered 2048 Discovery.no_info found 0 0 success
      no_info-IsConsistent discovery_now

chosen_now : Discovery.device_class found ≡ some TcgDeviceType.opal_v2_device
unfolding Discovery.device_class Discovery.chosen_class
chosen_now = refl

device_of-IsPresent_example :
    All (λ code. IsPresent code found.tcg_raw_features) (0x0203 ∷ [])
    × (true ≡ true → IsPresent 0x0002 found.tcg_raw_features)
device_of-IsPresent_example =
    device_of-IsPresent discovered 2048 found 0 0 success TcgDeviceType.opal_v2_device discovery_now
      chosen_now

abbrev overwrite_once : SanitizeOptions
overwrite_once = record {
  feature = SanitizeFeature.overwrite;
  overwrite_pass = 1;
  overwrite_pattern = 0xdeadbeef;
  no_deallocate = false;
}

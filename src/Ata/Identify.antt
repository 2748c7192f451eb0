-- ===== src/Ata/Identify.antt =====
-- The fields of `struct ata_identify_device_data` of include/jcu-dparm/ata_types.h that the code
-- reads, in the 512 bytes of the structure. A bit field of 16 bits starts at its lowest bit.
use jcu_dparm.Common.{ℕ, ◌+◌, ◌*◌, ◌/◌, ◌%◌, ◌^◌, List, Bool, not, ◌==◌, get_or, take, drop}

abbrev pub byte_at : List ℕ → ℕ → ℕ
byte_at data' i = get_or data' i 0

abbrev pub word_at : List ℕ → ℕ → ℕ
word_at data' n = byte_at data' (2 * n) + byte_at data' (2 * n + 1) * 2 ^ 8

abbrev pub dword_at : List ℕ → ℕ → ℕ
dword_at data' n = word_at data' n + word_at data' (n + 1) * 2 ^ 16

-- Bit `k` of word `n`.
abbrev pub bit_at : List ℕ → ℕ → ℕ → Bool
bit_at data' n k = not (word_at data' n / 2 ^ k % 2 == 0)

abbrev pub serial_number : List ℕ → List ℕ
serial_number data' = take 20 (drop 20 data')

abbrev pub firmware_revision : List ℕ → List ℕ
firmware_revision data' = take 8 (drop 46 data')

abbrev pub model_number : List ℕ → List ℕ
model_number data' = take 40 (drop 54 data')

abbrev pub lba_supported : List ℕ → Bool
lba_supported data' = bit_at data' 49 9

abbrev pub current_sector_capacity : List ℕ → ℕ
current_sector_capacity data' = dword_at data' 57

abbrev pub sanitize_feature_supported : List ℕ → Bool
sanitize_feature_supported data' = bit_at data' 59 12

abbrev pub crypto_scramble_ext_command_supported : List ℕ → Bool
crypto_scramble_ext_command_supported data' = bit_at data' 59 13

abbrev pub overwrite_ext_command_supported : List ℕ → Bool
overwrite_ext_command_supported data' = bit_at data' 59 14

abbrev pub block_erase_ext_command_supported : List ℕ → Bool
block_erase_ext_command_supported data' = bit_at data' 59 15

abbrev pub user_addressable_sectors : List ℕ → ℕ
user_addressable_sectors data' = dword_at data' 60

-- Of `command_set_support` and `command_set_active`.
abbrev pub smart_commands_supported : List ℕ → Bool
smart_commands_supported data' = bit_at data' 82 0

abbrev pub big_lba_supported : List ℕ → Bool
big_lba_supported data' = bit_at data' 83 10

abbrev pub word_valid83 : List ℕ → ℕ
word_valid83 data' = word_at data' 83 / 2 ^ 14 % 4

abbrev pub smart_commands_active : List ℕ → Bool
smart_commands_active data' = bit_at data' 85 0

abbrev pub big_lba_active : List ℕ → Bool
big_lba_active data' = bit_at data' 86 10

-- Of `normal_security_erase_unit` and `enhanced_security_erase_unit`, words 89 and 90.
abbrev pub time_required : List ℕ → ℕ → ℕ
time_required data' n = word_at data' n % 2 ^ 15

abbrev pub extended_time_reported : List ℕ → ℕ → Bool
extended_time_reported data' n = bit_at data' n 15

-- `max48bit_lba[0]` and `max48bit_lba[1]`.
abbrev pub max48bit_lba : List ℕ → ℕ → ℕ
max48bit_lba data' i = dword_at data' (100 + 2 * i)

-- Of `security_status`.
abbrev pub security_supported : List ℕ → Bool
security_supported data' = bit_at data' 128 0

abbrev pub security_enabled : List ℕ → Bool
security_enabled data' = bit_at data' 128 1

abbrev pub enhanced_security_erase_supported : List ℕ → Bool
enhanced_security_erase_supported data' = bit_at data' 128 5

abbrev pub nominal_media_rotation_rate : List ℕ → ℕ
nominal_media_rotation_rate data' = word_at data' 217

-- ===== src/Win/Runs/Commands.antt =====
-- The commands of the Windows drivers at concrete input.
use jcu_dparm.Common.{ℕ, ◌+◌, ◌≤◌, ◌<◌, ◌≡◌, ◌⊎◌, refl, arith, List, [], ◌∷◌}
use jcu_dparm.Common.{replicate, true, false, Option, none, some, done, fault}
use jcu_dparm.Common.{take, drop}
use jcu_dparm.Err.{success, is_ok}
use jcu_dparm.Ata.{Tf, zero_tf}
use jcu_dparm.Drive.Driver.{NvmeAdminCmd, zero_cmd}
use jcu_dparm.Drive.Capacity.{read_native_max_sectors}
use jcu_dparm.Win.Ata.{AtaCalls, has_error, ata_params, do_taskfile_cmd_impl}
use jcu_dparm.Win.Ata.{ata_driver}
use jcu_dparm.Win.Ata.Outcomes.{do_taskfile_cmd_impl_ok}
use jcu_dparm.Win.Scsi.{ScsiCalls, do_security_command_impl, scsi_result, scsi_driver}
use jcu_dparm.Win.Scsi.Outcomes.{IsClean, do_security_command_impl_ok}
use jcu_dparm.Win.NativeMax.{IsRequested, read_native_max_sectors-IsRequested}
use jcu_dparm.Win.Handle.{Files, file_opened}
use jcu_dparm.Win.Drives.{
  DiskAnswers, IsNumbered, enum_physical_drives, enum_physical_drives-IsNumbered,
}
use jcu_dparm.Win.Inquiry.{Descriptor, descriptor_size, inquiry_texts, inquiry_texts_lem}
use jcu_dparm.Drive.Driver.{InquiryDeviceResult}
use jcu_dparm.Common.{All}
use jcu_dparm.Win.Nvme.{NvmeCalls, answered, win_get_log_page}
use jcu_dparm.Win.Nvme.Transfers.{win_get_log_page_lem}

-- The first call is refused and leaves the structure as it was, the second one succeeds. The state
-- counts the calls.
abbrev ata_calls : AtaCalls ℕ
ata_calls = record {
  pass_through_direct = λ h p d w. (
    record { is_success = false; last_error = 1; current_task_file = p.current_task_file },
    d,
    w + 1,
  );
  pass_through = λ h p d w. (
    record { is_success = true; last_error = 0; current_task_file = replicate 8 0x50 },
    replicate 4 7,
    w + 1,
  );
}

-- SANITIZE has the number 0xb4.
abbrev sanitize : Tf
sanitize = record zero_tf { command = 0xb4 }

sanitize_now :
    is_ok (do_taskfile_cmd_impl ata_calls 4 false sanitize (some (replicate 4 1)) 4 15 0).0 ≡ true
unfolding do_taskfile_cmd_impl
sanitize_now = refl

sanitize_no_error : has_error (ata_params false sanitize 4 15).current_task_file ≡ false
unfolding has_error ata_params
sanitize_no_error = refl

do_taskfile_cmd_impl_ok_example :
    (has_error (ata_params false sanitize 4 15).current_task_file ≡ false)
    × ((((false ≡ true)
          × ((do_taskfile_cmd_impl ata_calls 4 false sanitize (some (replicate 4 1)) 4 15 0).1
              ≡ some (replicate 4 0))
          × ((do_taskfile_cmd_impl ata_calls 4 false sanitize (some (replicate 4 1)) 4 15 0).2
              ≡ 1)))
        ⊎ ((false ≡ false)
            × (true ≡ true)
            × (has_error (ata_params false sanitize 4 15).current_task_file ≡ false)
            × ((do_taskfile_cmd_impl ata_calls 4 false sanitize (some (replicate 4 1)) 4 15 0).1
                ≡ some (replicate 4 7))
            × ((do_taskfile_cmd_impl ata_calls 4 false sanitize (some (replicate 4 1)) 4 15 0).2
                ≡ 2)))
do_taskfile_cmd_impl_ok_example =
    do_taskfile_cmd_impl_ok ata_calls 4 false sanitize (some (replicate 4 1)) 4 15 0 sanitize_now

-- A call that fails, and one that succeeds.
abbrev scsi_calls : ScsiCalls ℕ
scsi_calls = record {
  pass_through_direct = λ h p d w. (
    record { is_success = false; last_error = 1; sense = record { valid = true; sense_key = 5 } },
    d,
    w + 1,
  );
  pass_through = λ h p d w. (
    record { is_success = true; last_error = 0; sense = record { valid = true; sense_key = 0 } },
    replicate 4 7,
    w + 1,
  );
}

security_now :
    is_ok (do_security_command_impl scsi_calls 4 1 1 false (some (replicate 4 1)) 4 5 0).0 ≡ true
unfolding do_security_command_impl scsi_result
security_now = refl

-- A sense key that is not marked as valid does not count.
abbrev unmarked_calls : ScsiCalls ℕ
unmarked_calls = record scsi_calls {
  pass_through_direct = λ h p d w. (
    record { is_success = true; last_error = 0; sense = record { valid = false; sense_key = 5 } },
    d,
    w + 1,
  );
}

unmarked_now :
    is_ok (do_security_command_impl unmarked_calls 4 1 1 false (some (replicate 4 1)) 4 5 0).0
    ≡ true
unfolding do_security_command_impl scsi_result
unmarked_now = refl

do_security_command_impl_ok_example :
    ((false ≡ true)
      × IsClean (record { valid = true; sense_key = 5 })
      × ((do_security_command_impl scsi_calls 4 1 1 false (some (replicate 4 1)) 4 5 0).1
          ≡ some (replicate 4 0))
      × ((do_security_command_impl scsi_calls 4 1 1 false (some (replicate 4 1)) 4 5 0).2 ≡ 1))
    ⊎ ((false ≡ false)
        × (true ≡ true)
        × IsClean (record { valid = true; sense_key = 0 })
        × ((do_security_command_impl scsi_calls 4 1 1 false (some (replicate 4 1)) 4 5 0).1
            ≡ some (replicate 4 7))
        × ((do_security_command_impl scsi_calls 4 1 1 false (some (replicate 4 1)) 4 5 0).2 ≡ 2))
do_security_command_impl_ok_example =
    do_security_command_impl_ok scsi_calls 4 1 1 false (replicate 4 1) 4 5 0 (λ e. omega arith)
      security_now

read_native_max_sectors-IsRequested_example :
    IsRequested (read_native_max_sectors (ata_driver ata_calls 4) (replicate 512 0) 0).0.value
    × IsRequested (read_native_max_sectors (scsi_driver scsi_calls 4) (replicate 512 0) 0).0.value
read_native_max_sectors-IsRequested_example =
    read_native_max_sectors-IsRequested ata_calls scsi_calls 4 (replicate 512 0) 0

-- A device without an interface, one without a path, and one that can be opened, which is the
-- drive 12.
abbrev answers : List DiskAnswers
answers =
    record { has_interface = false; detail = none }
    ∷ record { has_interface = true; detail = none }
    ∷ record { has_interface = true; detail = some (0x64 ∷ []) }
    ∷ []

abbrev files : Files ℕ
files = record { create_file = λ path w. (file_opened 4, w + 1); close_handle = λ h w. w }

abbrev number_12 : ℕ → ℕ → Option ℕ × ℕ
number_12 h w = (some 12, w)

enum_physical_drives-IsNumbered_example :
    All IsNumbered (enum_physical_drives files number_12 none answers 0).1
enum_physical_drives-IsNumbered_example =
    enum_physical_drives-IsNumbered files number_12 (λ h w. omega arith) none answers 0

-- The serial number is said to stand behind the buffer.
abbrev far_descriptor : Descriptor
far_descriptor = record {
  vendor_id_offset = 0;
  product_id_offset = 20;
  serial_number_offset = 5000;
  product_revision_offset = 0;
}

inquiry_texts_lem_example :
    (0 ≤ descriptor_size
      → 20 ≤ descriptor_size
      → 5000 ≤ descriptor_size
      → 0 ≤ descriptor_size
      → (i : InquiryDeviceResult) × (inquiry_texts (replicate 4096 0x41) far_descriptor ≡ done i))
    × (((descriptor_size < 0)
          ⊎ ((descriptor_size < 20) ⊎ ((descriptor_size < 5000) ⊎ (descriptor_size < 0))))
        → inquiry_texts (replicate 4096 0x41) far_descriptor ≡ fault)
inquiry_texts_lem_example = inquiry_texts_lem (replicate 4096 0x41) far_descriptor refl

-- The property query returns as much as it is asked for.
abbrev nvme_calls : NvmeCalls ℕ
nvme_calls = record {
  scsi_miniport = λ h c w. (answered (replicate 16 7), w + 1);
  query_property = λ h q w. (answered (q.data_length, replicate 4096 7), w + 1);
  get_address = λ h w. (answered 2, w);
}

abbrev identify_cmd : NvmeAdminCmd
identify_cmd = record zero_cmd { opcode = 6; addr = replicate 8 0; data_len = 8 }

-- A page of 4104 bytes: the last eight bytes are not read.
win_get_log_page_lem_example :
    (b : List ℕ) × (win_get_log_page nvme_calls 4 0x81 4104 (replicate 4104 1) 0
      ≡ done (success, b, 1))
    × (take 4096 b ≡ replicate 4096 7)
    × (drop 4096 b ≡ replicate 8 1)
win_get_log_page_lem_example =
    win_get_log_page_lem nvme_calls 4 0x81 4096 (replicate 4096 7) (replicate 4104 1) 0 1 refl
      (omega arith) (omega arith)

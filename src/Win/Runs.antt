-- ===== src/Win/Runs.antt =====
-- The Windows factory at concrete input. The state of the system is the list of the open
-- handles.
mod Commands
use jcu_dparm.Common.{
  ℕ, ◌+◌, ◌-◌, ◌*◌, ◌^◌, ◌≤◌, ◌<◌, ◌≡◌, ◌⊎◌, inl, inr, refl, arith, List, [], ◌∷◌,
}
use jcu_dparm.Common.{replicate, Bool, true, false, Option, none, some, Outcome, done, fault, stuck}
use jcu_dparm.Common.{length, get_or, if◌then◌else◌, take, drop, ◌++◌}
use jcu_dparm.Err.{success, returning, failed, ata_failed, is_ok, not_supported}
use jcu_dparm.Ata.{Tf, zero_tf}
use jcu_dparm.Drive.Driver.{DrivingType, InquiryDeviceResult, NvmeAdminCmd, zero_cmd}
use jcu_dparm.Drive.Identify.{DriveInfo, Identity, DriveCalls, after_open}
use jcu_dparm.Drive.Discovery.{no_info}
use jcu_dparm.Tcg.Device.{Handle}
use jcu_dparm.Common.{Bool-cases, ◌==◌}
use jcu_dparm.Intl.{
  fix_ata_string_order, swapped_before_zero, trim_string, drop_last_while, drop_while,
}
use jcu_dparm.Win.Text.{scsi_path, physical_disk_path}
use jcu_dparm.Win.Scsi.{scsi_result}
use jcu_dparm.Drive.Factory.{DriveHandle, OpenInfo, is_open, close_drive, enum_paths, open_drive}
use jcu_dparm.Drive.Factory.Handles.{count_ok, remove, IsQuiet}
use jcu_dparm.Win.Handle.{file_failed, file_opened, WinHandle, open_identified}
use jcu_dparm.Win.Ata.{AtaReply, ata_params, has_error, do_taskfile_cmd_impl}
use jcu_dparm.Win.Nvme.{refused, answered}
use jcu_dparm.Win.Factory.{WinCalls, open_win, close_win, enum_drives_win}
use jcu_dparm.Win.Drives.{DiskAnswers}
use jcu_dparm.Win.Factory.Handles.{
  IsCounted, new_handle, close_drive-open_win, enum_drives_win-opened,
}

-- Every file with a name can be opened. The NVMe and the SCSI calls fail; the ATA driver is answered with the
-- status of a drive that is ready.
abbrev os : WinCalls (List ℕ)
os = record {
  files = record {
    create_file = λ path w.
        if length path == 0
        then (file_failed 2, w)
        else (file_opened (length w + 4), (length w + 4) ∷ w);
    close_handle = λ h w. remove h w;
  };
  ata = record {
    pass_through_direct = λ h p d w. (
      record {
        is_success = true;
        last_error = 0;
        current_task_file = replicate 6 0 ++ (0x50 ∷ []);
      },
      d,
      w,
    );
    pass_through =
        λ h p d w. (record { is_success = false; last_error = 87; current_task_file = [] }, d, w);
  };
  scsi = record {
    pass_through_direct = λ h p d w. (
      record {
        is_success = false;
        last_error = 1;
        sense = record { valid = false; sense_key = 0 };
      },
      d,
      w,
    );
    pass_through = λ h p d w. (
      record {
        is_success = false;
        last_error = 1;
        sense = record { valid = false; sense_key = 0 };
      },
      d,
      w,
    );
  };
  nvme = record {
    scsi_miniport = λ h c w. (refused 1117, w);
    query_property = λ h q w. (refused 1, w);
    get_address = λ h w. (answered 2, w);
  };
  device_number = λ h w. (some h, w);
}

os-IsCounted : IsCounted os (λ w. w)
os-IsCounted = record {
  created = created;
  closed = λ h w. refl;
  ata_direct = λ h p d w. refl;
  ata_buffered = λ h p d w. refl;
  scsi_direct = λ h p d w. refl;
  scsi_buffered = λ h p d w. refl;
  miniport = λ h c w. refl;
  queried = λ h q w. refl;
  addressed = λ h w. refl;
  numbered = λ h w. refl;
}
  where
    created :
        (path w : List ℕ)
        → (os.files.create_file path w).1 ≡ new_handle (os.files.create_file path w).0 ++ w
    created path w = elim (Bool-cases (length path == 0)) [
      | inl empty ↦ rw empty refl
      | inr named ↦ rw named refl
    ]

abbrev no_texts : InquiryDeviceResult
no_texts = record {
  vendor_identification = [];
  product_identification = [];
  product_revision_level = [];
  drive_serial_number = 0x37 ∷ [];
}

abbrev identity : WinHandle → Identity (List ℕ)
identity h = record {
  driving_type = DrivingType.atapi;
  merge_drive_info = λ i. i;
  ata_identify_device_buf = h.identify;
  nvme_identify_device_buf = [];
  inquiry_device_info = λ w. (returning success no_texts, w);
}

-- The drive knows no TCG.
abbrev plain : Handle (List ℕ)
plain = record {
  do_security_command = λ send dma protocol com_id buffer n w. (failed not_supported, buffer, w);
  now = λ w. 0;
  sleep_for = λ n w. w;
  next_int64 = λ w. (7, w);
  pbkdf2 = λ iteration key_length password. password;
}

abbrev calls : WinHandle → DriveCalls (List ℕ)
calls h = record { driver = identity h; handle = plain; room = 2048 }

calls-IsQuiet : (x : WinHandle) → IsQuiet (λ w. w) (calls x)
calls-IsQuiet x = record {
  inquired = λ w. refl;
  commanded = λ send dma protocol com_id buffer n w. refl;
}

abbrev blank : DriveInfo
blank = record {
  driving_type = DrivingType.unknown;
  model = [];
  serial = [];
  firmware_revision = [];
  raw_serial = [];
  ata_identify = [];
  nvme_identify_ctrl = [];
  is_ssd = false;
  ssd_check_weight = 0;
  smart_enabled = false;
  support_sanitize_crypto_erase = 0;
  support_sanitize_block_erase = 0;
  support_sanitize_overwrite = 0;
}

-- The ATA driver takes the drive: it has no serial number, and is asked for it.
abbrev drive_info : DriveInfo
drive_info = record blank {
  driving_type = DrivingType.atapi;
  serial = 0x37 ∷ [];
  raw_serial = replicate 20 0;
  ata_identify = replicate 512 0;
  is_ssd = true;
  ssd_check_weight = 1;
}

abbrev path : List ℕ
path = 0x64 ∷ []

abbrev taken : DriveHandle WinHandle
taken = record {
  handle = some (record { device_path = path; handle = 4; identify = replicate 512 0 });
  last_error = success;
  drive_info = record { open_result = success; info = drive_info; tcg = no_info };
}

opened_now : open_win os calls blank path [] ≡ done (taken, 4 ∷ [])
unfolding open_win scsi_result after_open fix_ata_string_order swapped_before_zero trim_string
    drop_last_while drop_while remove scsi_path physical_disk_path
opened_now = refl

close_drive-open_win_example :
    (let closed = close_drive (close_win os) taken (4 ∷ []) in
      (closed.1 ≡ [])
      × (is_open closed.0 ≡ false)
      × (close_drive (close_win os) closed.0 closed.1 ≡ closed))
close_drive-open_win_example =
    close_drive-open_win os (λ w. w) os-IsCounted calls calls-IsQuiet blank path [] (4 ∷ []) taken
      opened_now

-- Two drives of the class, and a device between them that cannot be opened.
abbrev disk : List ℕ → DiskAnswers
disk p = record { has_interface = true; detail = some p }

abbrev disks : List DiskAnswers
disks = disk path ∷ disk [] ∷ disk path ∷ []

enumerated_now :
    enum_drives_win os calls (λ p. blank) none disks []
    ≡ done (0, taken.drive_info ∷ taken.drive_info ∷ [], 5 ∷ 4 ∷ [])
unfolding open_win scsi_result after_open fix_ata_string_order swapped_before_zero trim_string
    drop_last_while drop_while enum_paths enum_drives_win remove scsi_path physical_disk_path
enumerated_now = refl

enum_drives_win-opened_example :
    (leaked : List ℕ) × (5 ∷ 4 ∷ [] ≡ leaked ++ [])
    × (length leaked ≡ count_ok (taken.drive_info ∷ taken.drive_info ∷ []))
enum_drives_win-opened_example =
    enum_drives_win-opened os (λ w. w) os-IsCounted calls calls-IsQuiet (λ p. blank) none disks []
      (5 ∷ 4 ∷ []) 0 (taken.drive_info ∷ taken.drive_info ∷ []) enumerated_now

-- ===== src/Linux/Runs.antt =====
-- The Linux drivers at concrete input.
use jcu_dparm.Common.{ℕ, ◌+◌, ◌≤◌, ◌<◌, ◌≡◌, ◌≢◌, ◌⊎◌, inr, refl, replicate}
use jcu_dparm.Common.{true, false, none, if◌then◌else◌, ◌==◌, All, fault}
use jcu_dparm.Common.{bit_and, get_or, ◌>>>◌}
use jcu_dparm.Err.{is_ok}
use jcu_dparm.Ata.{Tf, tf_init, zero_regs, needs_lba48, is_ext_op}
use jcu_dparm.Ata.Identify.{byte_at}
use jcu_dparm.Drive.Driver.{Dma}
use jcu_dparm.Linux.Sgio.{SgIo, SgReply, SgResult, IoctlResult, sg_cdb}
use jcu_dparm.Linux.Sgio.{bad_status, missing_sense, has_failed, reply_tf, final_result}
use jcu_dparm.Linux.Sgio.{sg16_reply, sg16_request, sg16_direct, eio}
use jcu_dparm.Linux.Apt.{no_apt}
use jcu_dparm.Linux.Taskfile.{SgDevice, sg16, do_taskfile_cmd}
use jcu_dparm.Linux.Taskfile.Layout.{sat_tf, sat_protocol, sat_flags, ata_return, sat_tf-sg_cdb}
use jcu_dparm.Linux.Taskfile.Outcomes.{returned_tf, do_taskfile_cmd_ok, sg16_reply-ata_return}
use jcu_dparm.Common.{done, List, [], ◌∷◌}
use jcu_dparm.Linux.Inquiry.{serial_text, serial_text_overread}
use jcu_dparm.Linux.Volumes.{used_filesystem, is_listed}
use jcu_dparm.Linux.Volumes.{
  VolumeInfo, read_mounts, mount_fields, space_tokens, add_mount, same_text,
}
use jcu_dparm.Linux.Volumes.{mount_points_of, mounts_among, mount_points_of-read_mounts}

-- READ DMA EXT of 8 sectors.
abbrev read_tf : Tf
read_tf = tf_init 0x25 0x123456789a 8

wide_now : read_tf.is_lba48 ≡ 1
unfolding tf_init needs_lba48 is_ext_op
wide_now = refl

sat_tf-sg_cdb_example :
    (let cdb = sg_cdb false false true true read_tf in
      (sat_tf cdb ≡ record read_tf {
        error = 0;
        status = 0;
        hob = if read_tf.is_lba48 == 0 then zero_regs else read_tf.hob;
      })
      × (bit_and (get_or cdb 1 0 >>> 1) 0x0f ≡ sat_protocol false true true)
      × (get_or cdb 2 0 ≡ sat_flags false true)
      × (get_or cdb 0 0 ≡ 0x85))
sat_tf-sg_cdb_example = sat_tf-sg_cdb false true true read_tf (inr wide_now)

-- The registers of a drive that is ready, with the address of its last sector.
abbrev drive_tf : Tf
drive_tf = record {
  dev = 0x40;
  command = 0;
  error = 0;
  status = 0x50;
  is_lba48 = 1;
  lob = record { feat = 0; nsect = 0; lbal = 0xff; lbam = 0x12; lbah = 0x34 };
  hob = record { feat = 0; nsect = 0; lbal = 0x01; lbam = 0; lbah = 0 };
}

abbrev ready : SgReply
ready = record {
  status = 2;
  host_status = 0;
  driver_status = 8;
  info = 0;
  sense = ata_return drive_tf;
  data_in = none;
}

-- A kernel that counts its calls.
abbrev kernel : SgIo ℕ
kernel request data' w = (IoctlResult.answered ready, w + 1)

abbrev device : SgDevice
device = record { apt_data = no_apt; last_errno = 0 }

good_now : is_ok (do_taskfile_cmd kernel false Dma.unset read_tf none 0 15 (device, 0)).0 ≡ true
unfolding do_taskfile_cmd sg16 sg16_direct sg16_reply sg16_request reply_tf final_result has_failed
    missing_sense bad_status
good_now = refl

do_taskfile_cmd_ok_example :
    (let outcome = do_taskfile_cmd kernel false Dma.unset read_tf none 0 15 (device, 0) in
      ((false ≡ true) × (outcome.1 ≡ read_tf) × (read_tf.is_lba48 ≡ 0))
      ⊎ ((false ≡ false)
          × (has_failed outcome.1.status ≡ false)
          × (outcome.1.command ≡ read_tf.command)))
do_taskfile_cmd_ok_example =
    do_taskfile_cmd_ok kernel device false Dma.unset read_tf none 0 15 0 good_now

good_status_now : bad_status ready ≡ false
unfolding bad_status
good_status_now = refl

sg16_reply-ata_return_example : sg16_reply read_tf none 0 (IoctlResult.answered ready) ≡ (
  if has_failed 0x50 then SgResult.sg_error eio else SgResult.sg_ok,
  returned_tf drive_tf read_tf,
  none,
  0,
)
sg16_reply-ata_return_example =
    sg16_reply-ata_return drive_tf read_tf ready none 0 (inr refl) good_status_now refl

serial_text_overread_example :
    (byte_at (replicate 192 0xff) 3 ≤ 188 → serial_text (replicate 192 0xff) ≢ fault)
    × (188 < byte_at (replicate 192 0xff) 3
        → All (λ x. (x == 0) ≡ false) (replicate 192 0xff)
        → serial_text (replicate 192 0xff) ≡ fault)
serial_text_overread_example = serial_text_overread (replicate 192 0xff) refl

-- Two lines for one device, and one for another: "/a /b c o", "/d /e c o", "/a /f c o".
abbrev mount_lines : List (List ℕ)
mount_lines =
    (0x2f ∷ 0x61 ∷ 0x20 ∷ 0x2f ∷ 0x62 ∷ 0x20 ∷ 0x63 ∷ 0x20 ∷ 0x6f ∷ [])
    ∷ (0x2f ∷ 0x64 ∷ 0x20 ∷ 0x2f ∷ 0x65 ∷ 0x20 ∷ 0x63 ∷ 0x20 ∷ 0x6f ∷ [])
    ∷ (0x2f ∷ 0x61 ∷ 0x20 ∷ 0x2f ∷ 0x66 ∷ 0x20 ∷ 0x63 ∷ 0x20 ∷ 0x6f ∷ [])
    ∷ []

abbrev mounted : List VolumeInfo
mounted =
    record {
      path = 0x2f ∷ 0x61 ∷ [];
      filesystem = 0x63 ∷ [];
      mount_points = (0x2f ∷ 0x62 ∷ []) ∷ (0x2f ∷ 0x66 ∷ []) ∷ [];
    }
    ∷ record {
      path = 0x2f ∷ 0x64 ∷ [];
      filesystem = 0x63 ∷ [];
      mount_points = (0x2f ∷ 0x65 ∷ []) ∷ [];
    }
    ∷ []

mounted_now : read_mounts mount_lines [] ≡ done mounted
unfolding read_mounts mount_fields space_tokens add_mount same_text used_filesystem is_listed
mounted_now = refl

mount_points_of-read_mounts_example :
    mount_points_of (0x2f ∷ 0x61 ∷ []) mounted ≡ mounts_among (0x2f ∷ 0x61 ∷ []) mount_lines
mount_points_of-read_mounts_example =
    mount_points_of-read_mounts (0x2f ∷ 0x61 ∷ []) mount_lines mounted mounted_now

-- ===== src/Win/NativeMax.antt =====
-- `readNativeMaxSectors` of src/drive_handle_ata.cc over the two drivers for Windows that send ATA
-- commands.
use jcu_dparm.Common.{ℕ, ◌+◌, ◌^◌, ◌≡◌, ◌⊎◌, inl, inr, refl, List, Bool-cases, ◌&&◌, ◌==◌}
use jcu_dparm.Ata.{tf_init, needs_lba48, is_ext_op, is_plain_op}
use jcu_dparm.Ata.Identify
use jcu_dparm.Drive.Capacity.{read_native_max_sectors, native_max, native_max_tf}
use jcu_dparm.Win.Ata.{AtaCalls, ata_driver}
use jcu_dparm.Win.Scsi.{ScsiCalls, scsi_driver}

abbrev pub IsRequested : ℕ → Type 0
IsRequested n = (n ≡ 1) ⊎ (n ≡ 2 ^ 24 + 1)

-- The number that the registers of the request stand for.
native_max-native_max_tf : (identify : List ℕ) → IsRequested (native_max (native_max_tf identify))
unfolding native_max native_max_tf tf_init needs_lba48 is_ext_op is_plain_op
native_max-native_max_tf identify =
    elim (Bool-cases (
      Identify.big_lba_supported identify
      && ((Identify.word_valid83 identify == 1) && Identify.big_lba_active identify))) [
        | inl wide ↦ inl (rw wide refl)
        | inr narrow ↦ inr (rw narrow refl)
      ]

-- Over these drivers the native maximum is 1 or 16777217, whatever the drive answers: it is read
-- out of the registers of the request, since no register of the drive comes back.
pub read_native_max_sectors-IsRequested :
    {W : Type 0} (ata : AtaCalls W) (scsi : ScsiCalls W) (h : ℕ) (identify : List ℕ) (w : W)
    → IsRequested (read_native_max_sectors (ata_driver ata h) identify w).0.value
      × IsRequested (read_native_max_sectors (scsi_driver scsi h) identify w).0.value
unfolding read_native_max_sectors ata_driver scsi_driver
read_native_max_sectors-IsRequested ata scsi h identify w =
    (native_max-native_max_tf identify, native_max-native_max_tf identify)

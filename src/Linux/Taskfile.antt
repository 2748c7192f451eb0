-- ===== src/Linux/Taskfile.antt =====
-- `sg16` of src/plat-linux/sgio.cc, and the class `SgDriverHandle` of
-- src/plat-linux/drivers/sg_driver.cc over it.
pub mod Layout
pub mod Outcomes
use jcu_dparm.Common.{ℕ, ◌+◌, ◌*◌, ◌/◌, ◌%◌, ◌^◌, List, [], ◌∷◌, replicate}
use jcu_dparm.Common.{Bool, true, false, not, Option, none, some, if◌then◌else◌, leb, ◌==◌, bit_and}
use jcu_dparm.Err.{DparmResult, DparmReturn, failed, success, returning, sys, ata_failed}
use jcu_dparm.Ata.{Tf, zero_tf, is_dma}
use jcu_dparm.Drive.Driver.{Driver, Dma, DrivingType}
use jcu_dparm.Linux.Sgio.{SgIo, SgResult, do_sg_ata, sg16_direct}
use jcu_dparm.Linux.Apt.{AptData, no_apt, apt_jmicron_int_sg, apt_detect}

-- The device of a driver: its bridge, and `last_errno`.
pub record SgDevice : Type 0 where
  pub apt_data : AptData
  pub last_errno : ℕ

-- `{ DPARME_ATA_FAILED, rc }`, where `rc` is 1, `{ DPARME_SYS, errno }`, and `{ DPARME_OK, 0 }`.
abbrev pub sg_dparm_result : SgResult → DparmResult
sg_dparm_result (SgResult.sg_error e) = record { code = sys; sys_error = e; drive_status = 0 }
sg_dparm_result SgResult.sg_no_sense = record { code = ata_failed; sys_error = 1; drive_status = 0 }
sg_dparm_result SgResult.sg_ok = success

-- `dma < 0` asks for the mode of the command.
abbrev pub dma_mode : Dma → ℕ → Bool
dma_mode Dma.pio command = false
dma_mode Dma.dma command = true
dma_mode Dma.unset command = is_dma command

module _ {W : Type 0} (ioctl : SgIo W) where
  -- `sg16`, where a bridge has its own function.
  unfoldable pub sg16 :
      SgDevice
      → Bool
      → Bool
      → Tf
      → Option (List ℕ)
      → ℕ
      → ℕ
      → ℕ
      → W
      → SgResult × Tf × Option (List ℕ) × SgDevice × W
  unfolding sg16_direct apt_jmicron_int_sg
  sg16 dev write dma tf data' data_bytes timeout_secs sense_size w =
      if dev.apt_data.is_apt
      then (let (r, data'', w') =
            apt_jmicron_int_sg ioctl dev.apt_data.port write tf data' data_bytes timeout_secs 0 w in
          (r, tf, data'', dev, w'))
      else (let (end, w') =
            sg16_direct ioctl write dma tf data' data_bytes timeout_secs sense_size dev.last_errno
              w in
          (end.0, end.1, end.2, record dev { last_errno = end.3 }, w'))

  unfoldable pub do_taskfile_cmd :
      Bool
      → Dma
      → Tf
      → Option (List ℕ)
      → ℕ
      → ℕ
      → SgDevice × W
      → DparmResult × Tf × Option (List ℕ) × (SgDevice × W)
  unfolding sg16
  do_taskfile_cmd write d tf data' data_bytes timeout_secs w =
      let (r, tf', data'', dev, w') =
        sg16 w.0 write (dma_mode d tf.command) tf data' data_bytes timeout_secs 32 w.1 in
      (sg_dparm_result r, tf', data'', (dev, w'))

  -- `doAtaCmd`: the result, the data, and the new state.
  unfoldable pub do_ata_cmd :
      Bool
      → List ℕ
      → ℕ
      → Option (List ℕ)
      → ℕ
      → ℕ
      → ℕ
      → ℕ
      → SgDevice × W
      → DparmResult × Option (List ℕ) × (SgDevice × W)
  unfolding do_sg_ata
  do_ata_cmd write cdb cdb_bytes data' data_bytes pack_id timeout_secs sense_size w =
      let (r, data'', e, w') =
        do_sg_ata ioctl write cdb cdb_bytes data' data_bytes pack_id timeout_secs sense_size
          w.0.last_errno w.1 in
      (sg_dparm_result r, data'', (record w.0 { last_errno = e }, w'))

  abbrev pub identify_command : Tf
  identify_command = record zero_tf { command = 0xec }

  abbrev pub is_sg_error : SgResult → Bool
  is_sg_error (SgResult.sg_error e) = true
  is_sg_error _ = false

  -- `SgDriver::open` on a file that is open, with the attributes of the USB device: the device and
  -- the identify data, or an error.
  unfoldable pub open_device :
      Option ℕ → Option ℕ → Option ℕ → W → DparmReturn (Option (SgDevice × Option (List ℕ))) × W
  unfolding apt_detect sg16
  open_device vendor product version w =
      let (ignored, apt, w') = apt_detect ioctl vendor product version no_apt w in
      let dev : SgDevice = record { apt_data = apt; last_errno = 0 } in
      let (r, tf', data', dev', w'') =
        sg16 dev false false identify_command (some (replicate 512 0)) 512 3 32 w' in
      if is_sg_error r
      then (
        returning (record { code = sys; sys_error = dev'.last_errno; drive_status = 0 }) none,
        w'',
      )
      else (returning success (some (dev', data')), w'')

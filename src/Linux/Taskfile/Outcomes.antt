-- ===== src/Linux/Taskfile/Outcomes.antt =====
-- What a result of `SgDriverHandle::doTaskfileCmd` says of the drive.
use jcu_dparm.Common.{ℕ, ◌≡◌, ◌⊎◌, inl, inr, refl, arith, List}
use jcu_dparm.Common.{Bool, true, false, Option, if◌then◌else◌, ◌==◌}
use jcu_dparm.Common.{Bool-cases}
use jcu_dparm.Err.{DparmResult, is_ok}
use jcu_dparm.Ata.{Tf, zero_regs}
use jcu_dparm.Drive.Driver.{Dma}
use jcu_dparm.Linux.Sgio.{SgIo, SgReply, SgResult, IoctlResult, bad_status, missing_sense}
use jcu_dparm.Linux.Sgio.{has_failed, reply_tf, final_result, sg16_reply, eio}
use jcu_dparm.Linux.Apt.{apt_jmicron_int_sg}
use jcu_dparm.Linux.Sgio.{sg16_request, clear_data}
use jcu_dparm.Linux.Taskfile.{dma_mode, SgDevice, sg16, do_taskfile_cmd, sg_dparm_result}
use jcu_dparm.Linux.Taskfile.Layout.{ata_return}

IoctlResult-cases :
    (a : IoctlResult)
    → ((e : ℕ) × (a ≡ IoctlResult.refused e)) ⊎ ((r : SgReply) × (a ≡ IoctlResult.answered r))
IoctlResult-cases (IoctlResult.refused e) = inl (e, refl)
IoctlResult-cases (IoctlResult.answered r) = inr (r, refl)

module _ {W : Type 0} (ioctl : SgIo W) where
  apt_ok :
      (port : ℕ) (write : Bool) (tf : Tf) (data' : Option (List ℕ)) (n t p : ℕ) (w : W)
      → is_ok (sg_dparm_result (apt_jmicron_int_sg ioctl port write tf data' n t p w).0) ≡ true
      → tf.is_lba48 ≡ 0
  unfolding apt_jmicron_int_sg
  apt_ok port write tf data' n t p w good = ground arith

reply_ok :
    (tf : Tf) (cleared : Option (List ℕ)) (last_errno : ℕ) (a : IoctlResult)
    → is_ok (sg_dparm_result (sg16_reply tf cleared last_errno a).0) ≡ true
    → (has_failed (sg16_reply tf cleared last_errno a).1.status ≡ false)
      × ((sg16_reply tf cleared last_errno a).1.command ≡ tf.command)
unfolding sg16_reply final_result reply_tf
reply_ok tf cleared last_errno (IoctlResult.refused e) good = cc
reply_ok tf cleared last_errno (IoctlResult.answered r) good = ground arith

module _ {W : Type 0} (ioctl : SgIo W) (dev : SgDevice) (write : Bool) (d : Dma) (tf : Tf)
    (data' : Option (List ℕ)) (data_bytes timeout_secs : ℕ) (w : W) where
  abbrev outcome : DparmResult × Tf × Option (List ℕ) × (SgDevice × W)
  outcome = do_taskfile_cmd ioctl write d tf data' data_bytes timeout_secs (dev, w)

  -- A good result comes from a bridge, for a 28-bit command, whose registers are those of the
  -- request; or from a drive that has left the opcode and a status without error and without a
  -- pending transfer.
  pub do_taskfile_cmd_ok :
      is_ok outcome.0 ≡ true
      → ((dev.apt_data.is_apt ≡ true) × (outcome.1 ≡ tf) × (tf.is_lba48 ≡ 0))
        ⊎ ((dev.apt_data.is_apt ≡ false)
            × (has_failed outcome.1.status ≡ false)
            × (outcome.1.command ≡ tf.command))
  unfolding do_taskfile_cmd sg16
  do_taskfile_cmd_ok good = elim (Bool-cases dev.apt_data.is_apt) [
    | inl bridge ↦ inl (
      bridge,
      rw bridge refl,
      apt_ok ioctl dev.apt_data.port write tf data' data_bytes timeout_secs 0 w (rw bridge at good),
    )
    | inr direct ↦
        (let cleared = clear_data write data_bytes data' in
          let request =
            sg16_request write (dma_mode d tf.command) tf data' data_bytes timeout_secs 32 in
          let got =
            reply_ok tf cleared dev.last_errno (ioctl request cleared w).0 (rw direct at good) in
          inr (direct, rw direct got.0, rw direct got.1))
  ]

-- The registers of a reply, where those of `t` were put into the descriptor.
abbrev pub returned_tf : Tf → Tf → Tf
returned_tf t tf = record t {
  command = tf.command;
  lob = record t.lob { feat = tf.lob.feat };
  hob = if t.is_lba48 == 0 then zero_regs else record t.hob { feat = 0 };
}

-- Where the kernel passes on the registers `t` of a drive as an ATA return descriptor, with good
-- statuses, they come back as the registers of `sg16` for a drive that is behind no bridge, except
-- for the opcode and the feature, which stay those of the request; the result is an error exactly
-- if the status register has its error or its data-request bit. `is_lba48` of `t` is 0 or 1.
pub sg16_reply-ata_return :
    (t tf : Tf) (r : SgReply) (cleared : Option (List ℕ)) (last_errno : ℕ)
    → (t.is_lba48 ≡ 0) ⊎ (t.is_lba48 ≡ 1)
    → bad_status r ≡ false
    → r.sense ≡ ata_return t
    → sg16_reply tf cleared last_errno (IoctlResult.answered r) ≡ (
      if has_failed t.status then SgResult.sg_error eio else SgResult.sg_ok,
      returned_tf t tf,
      r.data_in,
      last_errno,
    )
unfolding sg16_reply reply_tf final_result missing_sense
sg16_reply-ata_return t tf r cleared last_errno (inl e) good sense =
    rw (good, sense, e) (ground arith)
sg16_reply-ata_return t tf r cleared last_errno (inr e) good sense =
    rw (good, sense, e) (ground arith)

-- ===== src/Linux/Taskfile/Layout.antt =====
-- The command block of `sg16` read the way T10's ATA PASS-THROUGH (16) describes it, and the
-- registers of a reply against the ATA status return descriptor.
use jcu_dparm.Common.{ℕ, ◌+◌, ◌*◌, ◌≡◌, ◌⊎◌, arith, List, [], ◌∷◌}
use jcu_dparm.Common.{Bool, false, if◌then◌else◌, ◌==◌, bit_and, get_or, ◌>>>◌}
use jcu_dparm.Ata.{Tf, zero_regs}
use jcu_dparm.Linux.Sgio.{sg_cdb, protocol, transfer_flags}

-- The registers that the fields of a command block stand for.
abbrev pub sat_tf : List ℕ → Tf
sat_tf cdb =
    let byte = λ (i : ℕ). get_or cdb i 0 in
    record {
      dev = byte 13;
      command = byte 14;
      error = 0;
      status = 0;
      is_lba48 = bit_and (byte 1) 1;
      lob = record { feat = byte 4; nsect = byte 6; lbal = byte 8; lbam = byte 10; lbah = byte 12 };
      hob = record { feat = byte 3; nsect = byte 5; lbal = byte 7; lbam = byte 9; lbah = byte 11 };
    }

-- PROTOCOL: non-data, PIO in, PIO out, DMA.
abbrev pub sat_protocol : Bool → Bool → Bool → ℕ
sat_protocol write dma has = if has then (if dma then 6 else if write then 5 else 4) else 3

-- The length of the transfer in the count, in blocks, from or to the device, with or without a
-- demand for sense data.
abbrev pub sat_flags : Bool → Bool → ℕ
sat_flags write has = if has then 2 + 1 * 4 + (if write then 0 else 1) * 8 else 1 * 32

-- Every register of the task file, the mode of the transfer and its direction can be read back
-- from the command block at the places that the standard names, where `is_lba48` is 0 or 1; the
-- high-order registers are 0 in a 28-bit command.
pub sat_tf-sg_cdb :
    (write dma has : Bool) (tf : Tf)
    → (tf.is_lba48 ≡ 0) ⊎ (tf.is_lba48 ≡ 1)
    → (let cdb = sg_cdb false write dma has tf in
        (sat_tf cdb ≡ record tf {
          error = 0;
          status = 0;
          hob = if tf.is_lba48 == 0 then zero_regs else tf.hob;
        })
        × (bit_and (get_or cdb 1 0 >>> 1) 0x0f ≡ sat_protocol write dma has)
        × (get_or cdb 2 0 ≡ sat_flags write has)
        × (get_or cdb 0 0 ≡ 0x85))
unfolding sg_cdb protocol transfer_flags
sat_tf-sg_cdb write dma has tf bit = ground arith

-- Sense data in descriptor format with the registers of a drive in it.
abbrev pub ata_return : Tf → List ℕ
ata_return t =
    0x72 ∷ 0 ∷ 0 ∷ 0 ∷ 0 ∷ 0 ∷ 0 ∷ 14 ∷ 0x09 ∷ 0x0c ∷ t.is_lba48 ∷ t.error ∷ t.hob.nsect
    ∷ t.lob.nsect ∷ t.hob.lbal ∷ t.lob.lbal ∷ t.hob.lbam ∷ t.lob.lbam ∷ t.hob.lbah ∷ t.lob.lbah
    ∷ t.dev ∷ t.status ∷ []

-- ===== src/Ata.antt =====
-- src/ata_utils.cc, the register types of include/jcu-dparm/ata_types.h, and `tf_to_lba` of
-- src/plat-linux/sgio.cc, which repeats the first file's functions for its own use.
pub mod Address
pub mod Identify
use jcu_dparm.Common.{ℕ, ◌+◌, ◌-◌, ◌*◌, ◌/◌, ◌%◌, ◌^◌, Bool, true, false, ◌||◌, bit_and, bit_or}
use jcu_dparm.Common.{if◌then◌else◌, ltb, leb, ◌==◌, not, u8, u32, u64, ◌<<<◌, ◌>>>◌}

-- `struct ata_lba_regs`: five `uint8_t`.
pub record LbaRegs : Type 0 where
  pub feat : ℕ
  pub nsect : ℕ
  pub lbal : ℕ
  pub lbam : ℕ
  pub lbah : ℕ

-- `struct ata_tf`.
pub record Tf : Type 0 where
  pub dev : ℕ
  pub command : ℕ
  pub error : ℕ
  pub status : ℕ
  pub is_lba48 : ℕ
  pub lob : LbaRegs
  pub hob : LbaRegs

abbrev pub zero_regs : LbaRegs
zero_regs = record { feat = 0; nsect = 0; lbal = 0; lbam = 0; lbah = 0 }

-- `memset(tf, 0, sizeof(*tf))` and `ata_tf_t tf = {0}`.
abbrev pub zero_tf : Tf
zero_tf = record {
  dev = 0;
  command = 0;
  error = 0;
  status = 0;
  is_lba48 = 0;
  lob = zero_regs;
  hob = zero_regs;
}

abbrev pub using_lba : ℕ
using_lba = 2 ^ 6

abbrev pub lba28_limit : ℕ
lba28_limit = 2 ^ 28 - 1

-- The opcodes of the `switch` that need 48-bit addresses, and those that never do: DSM, READ PIO
-- EXT, READ DMA EXT, WRITE PIO EXT, WRITE DMA EXT, READ VERIFY EXT, WRITE UNC EXT, READ NATIVE MAX
-- EXT, SET MAX EXT, FLUSHCACHE EXT; SECURITY ERASE PREPARE, SECURITY ERASE UNIT, VENDOR SPECIFIC
-- 0x80, SMART.
unfoldable pub is_ext_op : ℕ → Bool
is_ext_op op =
    op == 0x06
    || (op == 0x24
        || (op == 0x25
            || (op == 0x34
                || (op == 0x35
                    || (op == 0x42
                        || (op == 0x45 || (op == 0x27 || (op == 0x37 || op == 0xea))))))))

unfoldable pub is_plain_op : ℕ → Bool
is_plain_op op = op == 0xf3 || (op == 0xf4 || (op == 0x80 || op == 0xb0))

-- `lba + nsect - 1` is computed in `uint64_t`.
unfoldable pub needs_lba48 : ℕ → ℕ → ℕ → Bool
needs_lba48 op lba nsect =
    if is_ext_op op
    then true
    else if is_plain_op op
    then false
    else if leb lba28_limit lba
    then true
    else if nsect == 0
    then false
    else if ltb 0xff nsect
    then true
    else leb lba28_limit (u64 (lba + nsect + 2 ^ 64 - 1))

-- DSM, READ DMA EXT, READ FPDMA, WRITE DMA EXT, WRITE FPDMA, READ DMA, WRITE DMA.
unfoldable pub is_dma : ℕ → Bool
is_dma op =
    op == 0x06
    || (op == 0x25 || (op == 0x60 || (op == 0x35 || (op == 0x61 || (op == 0xc8 || op == 0xca)))))

unfoldable pub tf_init : ℕ → ℕ → ℕ → Tf
tf_init op lba nsect =
    let low = record zero_regs {
      lbal = u8 lba;
      lbam = u8 (lba >>> 8);
      lbah = u8 (lba >>> 16);
      nsect = u8 nsect;
    } in
    if needs_lba48 op lba nsect
    then record zero_tf {
      command = u8 op;
      dev = using_lba;
      lob = low;
      is_lba48 = 1;
      hob = record zero_regs {
        nsect = u8 (nsect >>> 8);
        lbal = u8 (lba >>> 24);
        lbam = u8 (lba >>> 32);
        lbah = u8 (lba >>> 40);
      };
    }
    else record zero_tf {
      command = u8 op;
      dev = u8 (bit_or using_lba (u8 (bit_and (lba >>> 24) 0x0f)));
      lob = low;
    }

-- Three registers as a number; each is below 256, so the shifts in `int` do not overflow.
abbrev pub regs_number : LbaRegs → ℕ
regs_number r = bit_or (bit_or (r.lbah <<< 16) (r.lbam <<< 8)) r.lbal

unfoldable pub tf_to_lba : Tf → ℕ
tf_to_lba tf =
    let lbah = if not (tf.is_lba48 == 0) then regs_number tf.hob else bit_and tf.dev 0x0f in
    bit_or (u64 (lbah <<< 24)) (regs_number tf.lob)

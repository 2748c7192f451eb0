-- ===== src/Ata/Address.antt =====
-- Addresses through the register file: what `tf_init` writes, `tf_to_lba` reads back.
use jcu_dparm.Common.{ℕ, ◌+◌, ◌*◌, ◌/◌, ◌%◌, ◌^◌, ◌≤◌, ◌<◌, ◌≡◌, inl, inr, arith, ap, ◌∙◌}
use mathlib.Core.Path.{ap₂}
use jcu_dparm.Common.{false, Bool-cases, bit_and, bit_or, u8, u64}
use jcu_dparm.Common.Bits.{bit_or_high, bit_and_ones}
use jcu_dparm.Ata.{
  Tf, LbaRegs, needs_lba48, tf_init, tf_to_lba, is_plain_op, lba28_limit, regs_number,
}

pub regs_number_lem :
    (r : LbaRegs)
    → r.lbal < 256
    → r.lbam < 256
    → regs_number r ≡ r.lbah * 2 ^ 16 + r.lbam * 2 ^ 8 + r.lbal
regs_number_lem r hl hm = upper ∙ omega (arith, bit_or_high 8 (r.lbah * 256 + r.lbam) r.lbal hl)
  where
    upper : regs_number r ≡ bit_or ((r.lbah * 256 + r.lbam) * 2 ^ 8) r.lbal
    upper =
        ap (λ t. bit_or t r.lbal)
          (omega (arith, bit_or_high 16 r.lbah (r.lbam * 2 ^ 8) (omega arith)))

-- Where a command without a fixed form needs no 48-bit address, its sectors end below 2^28.
needs_lba48-bound :
    (op lba nsect : ℕ)
    → lba < 2 ^ 48
    → is_plain_op op ≡ false
    → needs_lba48 op lba nsect ≡ false
    → (lba < lba28_limit) × (nsect ≤ 0xff) × (lba + nsect ≤ lba28_limit)
unfolding needs_lba48
needs_lba48-bound op lba nsect h plain e = ground arith

-- Three register bytes of a number are its 24 low bits.
three_bytes :
    (x : ℕ)
    → bit_or (bit_or (x / 2 ^ 16 % 256 * 2 ^ 16) (x / 2 ^ 8 % 256 * 2 ^ 8)) (x % 256) ≡ x % 2 ^ 24
three_bytes x =
    regs_number_lem
      (record {
        feat = 0;
        nsect = 0;
        lbal = x % 256;
        lbam = x / 2 ^ 8 % 256;
        lbah = x / 2 ^ 16 % 256;
      })
      (omega arith) (omega arith)
    ∙ omega arith

join_halves :
    (high low lba : ℕ)
    → high ≡ lba / 2 ^ 24
    → low ≡ lba % 2 ^ 24
    → lba < 2 ^ 48
    → bit_or (u64 (high * 2 ^ 24)) low ≡ lba
join_halves high low lba eh el h =
    ap (λ t. bit_or t low) (omega arith) ∙ bit_or_high 24 high low (omega arith) ∙ omega arith

-- The three high register bytes of a 48-bit address.
hob_part :
    (lba : ℕ)
    → lba < 2 ^ 48
    → bit_or
        (bit_or (lba / 2 ^ 40 % 256 * 2 ^ 16) (lba / 2 ^ 32 % 256 * 2 ^ 8))
        (lba / 2 ^ 24 % 256)
      ≡ lba / 2 ^ 24
hob_part lba h =
    ap₂ (λ a b. bit_or (bit_or (a % 256 * 2 ^ 16) (b % 256 * 2 ^ 8)) (lba / 2 ^ 24 % 256))
      (omega arith) (omega arith)
    ∙ three_bytes (lba / 2 ^ 24)
    ∙ omega arith

-- Six registers that hold the bytes of a 48-bit address are read back as that address.
pub tf_to_lba_wide :
    (tf : Tf) (lba : ℕ)
    → lba < 2 ^ 48
    → tf.is_lba48 ≡ 1
    → (tf.lob.lbal ≡ u8 lba) × (tf.lob.lbam ≡ u8 (lba / 2 ^ 8)) × (tf.lob.lbah ≡ u8 (lba / 2 ^ 16))
    → (tf.hob.lbal ≡ u8 (lba / 2 ^ 24))
      × (tf.hob.lbam ≡ u8 (lba / 2 ^ 32))
      × (tf.hob.lbah ≡ u8 (lba / 2 ^ 40))
    → tf_to_lba tf ≡ lba
unfolding tf_to_lba
tf_to_lba_wide tf lba h wide (l0, l1, l2) (h0, h1, h2) =
    rw (wide, l0, l1, l2, h0, h1, h2) (join_halves _ _ lba (hob_part lba h) (three_bytes lba) h)

-- `tf_init` loses no bit of a 48-bit address, except for the four opcodes that never use 48 bits:
-- `tf_to_lba` reads the address back.
pub tf_to_lba-tf_init :
    (op lba nsect : ℕ)
    → lba < 2 ^ 48
    → is_plain_op op ≡ false
    → tf_to_lba (tf_init op lba nsect) ≡ lba
unfolding tf_to_lba tf_init
tf_to_lba-tf_init op lba nsect h plain = elim (Bool-cases (needs_lba48 op lba nsect)) [
  | inl long ↦ rw long (join_halves _ _ lba (hob_part lba h) (three_bytes lba) h)
  | inr short ↦ rw short (
      join_halves _ _ lba (dev_part (needs_lba48-bound op lba nsect h plain short).0)
        (three_bytes lba) h)
]
  where
    dev_part :
        lba < lba28_limit
        → bit_and (u8 (bit_or (2 ^ 6) (u8 (bit_and (lba / 2 ^ 24) 0x0f)))) 0x0f ≡ lba / 2 ^ 24
    dev_part low = omega (
      arith,
      bit_and_ones 4 (lba / 2 ^ 24),
      bit_or_high 6 1 (u8 (bit_and (lba / 2 ^ 24) 0x0f)),
      bit_and_ones 4 (u8 (bit_or (2 ^ 6) (u8 (bit_and (lba / 2 ^ 24) 0x0f)))),
    )

-- ===== src/Drive/Capacity.antt =====
-- src/drive_handle_ata.cc: the capacity of an ATA drive, its configuration overlay, and its native
-- maximum. The identify data of the handle is an argument.
use jcu_dparm.Common.{ℕ, ◌+◌, ◌*◌, ◌%◌, ◌^◌, ◌<◌, ◌≡◌, inl, inr, ap, ◌∙◌}
use jcu_dparm.Common.{arith, Bool-cases, List, [], replicate, false, ◌&&◌, not, if◌then◌else◌, ◌==◌}
use jcu_dparm.Common.{bit_and, bit_or, ◌<<<◌, u64}
use native.Mathlib.Decide.{dec_lt}
use jcu_dparm.Common.Bits.{bit_or_high, bit_or_shifted, bit_or-one, bit_and_ones}
use jcu_dparm.Ata.Address.{regs_number_lem}
use jcu_dparm.Err.{DparmReturn, failed, returning, not_supported}
use jcu_dparm.Ata.{Tf, LbaRegs, tf_init}
use jcu_dparm.Ata.Identify
use jcu_dparm.Drive.Driver.{Driver, Dma, is_atapi}

unfoldable pub get_ata_lba_capacity : {W : Type 0} → Driver W → List ℕ → ℕ
get_ata_lba_capacity driver identify =
    if not (is_atapi driver.driving_type)
    then 0
    else if Identify.lba_supported identify
    then (if (Identify.word_valid83 identify == 1) && Identify.big_lba_active identify
        then bit_or (Identify.max48bit_lba identify 0)
            (u64 (Identify.max48bit_lba identify 1 <<< 32))
        else Identify.user_addressable_sectors identify)
    else Identify.current_sector_capacity identify

-- The vector of 256 words is its 512 bytes.
unfoldable pub read_dco_identify : {W : Type 0} → Driver W → W → DparmReturn (List ℕ) × W
read_dco_identify driver w =
    if not (is_atapi driver.driving_type)
    then (returning (failed not_supported) [], w)
    else (let init = tf_init 0xb1 0 1 in
        let tf : Tf = record init { lob = record init.lob { feat = 0xc2 } } in
        let (dr, tf', data', w') =
          driver.do_taskfile_cmd false Dma.unset tf (replicate 512 0) 512 15 w in
        (returning dr data', w'))

-- `+` binds tighter than `|`.
unfoldable pub native_max : Tf → ℕ
native_max tf =
    if tf.command == 0xf8
    then bit_or
        (bit_or (bit_or (bit_and tf.dev 0x0f <<< 24) (tf.lob.lbah <<< 16)) (tf.lob.lbam <<< 8))
        (tf.lob.lbal + 1)
    else bit_or (bit_or (bit_or (tf.hob.lbah <<< 16) (tf.hob.lbam <<< 8)) tf.hob.lbal <<< 24)
        (bit_or (bit_or (tf.lob.lbah <<< 16) (tf.lob.lbam <<< 8)) (tf.lob.lbal + 1))

unfoldable pub native_max_tf : List ℕ → Tf
native_max_tf identify =
    if Identify.big_lba_supported identify
      && ((Identify.word_valid83 identify == 1) && Identify.big_lba_active identify)
    then record (tf_init 0x27 0 0) { dev = 0x40 }
    else record (tf_init 0xf8 0 0) { dev = 0x01 }

unfoldable pub read_native_max_sectors : {W : Type 0} → Driver W → List ℕ → W → DparmReturn ℕ × W
unfolding native_max native_max_tf
read_native_max_sectors driver identify w =
    if not (is_atapi driver.driving_type)
    then (returning (failed not_supported) 0, w)
    else (let (dr, tf, data', w') =
          driver.do_taskfile_cmd false Dma.unset (native_max_tf identify) [] 0 15 w in
        (returning dr (native_max tf), w'))

-- The `+ 1` of the code, on the bytes above the lowest one and on that.
low_plus_one :
    (x l : ℕ)
    → l < 256
    → bit_or (x * 2 ^ 8) (l + 1) + (if (l == 255) && (x % 2 == 1) then 256 else 0)
      ≡ x * 2 ^ 8 + l + 1
low_plus_one x l hl = elim (dec_lt l 255) [
  | yes small ↦ ground (arith, bit_or_high 8 x (l + 1) (omega arith))
  | no large ↦
      let full : l ≡ 255 = omega arith in
      rw full (ground (arith, bit_or_shifted 8 x 1, bit_or-one x))
]

-- Of which registers the number of sectors is made.
abbrev pub native_address : Tf → ℕ
native_address tf =
    if tf.command == 0xf8
    then tf.dev % 2 ^ 4 * 2 ^ 24 + tf.lob.lbah * 2 ^ 16 + tf.lob.lbam * 2 ^ 8 + tf.lob.lbal
    else tf.hob.lbah * 2 ^ 40
      + tf.hob.lbam * 2 ^ 32
      + tf.hob.lbal * 2 ^ 24
      + tf.lob.lbah * 2 ^ 16
      + tf.lob.lbam * 2 ^ 8
      + tf.lob.lbal

-- The register bytes are bytes.
pub record IsBytes (r : LbaRegs) : Type 0 where
  pub lbal_in : r.lbal < 256
  pub lbam_in : r.lbam < 256
  pub lbah_in : r.lbah < 256

low_bytes :
    (r : LbaRegs)
    → IsBytes r
    → bit_or (r.lbah <<< 16) (r.lbam <<< 8) ≡ (r.lbah * 2 ^ 8 + r.lbam) * 2 ^ 8
low_bytes r b = omega (arith, bit_or_high 16 r.lbah (r.lbam * 2 ^ 8) (omega (arith, b.lbam_in)))

device_bytes :
    (dev : ℕ) (r : LbaRegs)
    → IsBytes r
    → bit_or (bit_or (bit_and dev 0x0f <<< 24) (r.lbah <<< 16)) (r.lbam <<< 8)
      ≡ (dev % 2 ^ 4 * 2 ^ 16 + r.lbah * 2 ^ 8 + r.lbam) * 2 ^ 8
device_bytes dev r b =
    ap (λ t. bit_or (bit_or (t <<< 24) (r.lbah <<< 16)) (r.lbam <<< 8)) (bit_and_ones 4 dev)
    ∙ ap (λ t. bit_or t (r.lbam <<< 8)) upper
    ∙ bit_or_high 16 (dev % 2 ^ 4 * 2 ^ 8 + r.lbah) (r.lbam * 2 ^ 8) (omega (arith, b.lbam_in))
    ∙ omega arith
  where
    upper : bit_or ((dev % 2 ^ 4) <<< 24) (r.lbah <<< 16) ≡ (dev % 2 ^ 4 * 2 ^ 8 + r.lbah) * 2 ^ 16
    upper = bit_or_high 24 (dev % 2 ^ 4) (r.lbah * 2 ^ 16) (omega (arith, b.lbah_in)) ∙ omega arith

fits_below : (x l : ℕ) → x < 2 ^ 16 → l < 256 → bit_or (x * 2 ^ 8) (l + 1) < 2 ^ 24
fits_below x l hx hl = ground (arith, low_plus_one x l hl)

-- The number of sectors is the highest address of the registers and one, except where the lowest
-- byte is 0xff and the byte above it is odd: there it is 256 short, since the `+ 1` reaches the
-- lowest byte alone.
pub native_max_lem :
    (tf : Tf)
    → IsBytes tf.lob
    → IsBytes tf.hob
    → native_max tf + (if (tf.lob.lbal == 255) && (tf.lob.lbam % 2 == 1) then 256 else 0)
      ≡ native_address tf + 1
unfolding native_max
native_max_lem tf l h = elim (Bool-cases (tf.command == 0xf8)) [
  | inl short ↦
      rw (short, device_bytes tf.dev tf.lob l)
        (ground (
          arith,
          low_plus_one (tf.dev % 2 ^ 4 * 2 ^ 16 + tf.lob.lbah * 2 ^ 8 + tf.lob.lbam) tf.lob.lbal
              l.lbal_in,
        ))
  | inr long ↦
      let high = regs_number_lem tf.hob h.lbal_in h.lbam_in in
      let low = low_plus_one (tf.lob.lbah * 2 ^ 8 + tf.lob.lbam) tf.lob.lbal l.lbal_in in
      rw (long, low_bytes tf.lob l, high)
        (ground (
          arith,
          low,
          bit_or_high 24 (tf.hob.lbah * 2 ^ 16 + tf.hob.lbam * 2 ^ 8 + tf.hob.lbal)
              (bit_or ((tf.lob.lbah * 2 ^ 8 + tf.lob.lbam) * 2 ^ 8) (tf.lob.lbal + 1))
              (fits_below _ tf.lob.lbal (omega (arith, l.lbah_in, l.lbam_in)) l.lbal_in),
        ))
]

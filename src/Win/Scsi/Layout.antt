-- ===== src/Win/Scsi/Layout.antt =====
-- The command block of a security command.
use jcu_dparm.Common.{ℕ, ◌+◌, ◌*◌, ◌^◌, ◌<◌, ◌≡◌, refl, arith, Bool, if◌then◌else◌, get_or, length}
use jcu_dparm.Common.{swap16, swap32, swap16_bytes, swap32_bytes, u8, ◌>>>◌}
use jcu_dparm.Win.Scsi.{security_cdb}

big_endian16 : (x : ℕ) → x < 2 ^ 16 → u8 (swap16 x) * 2 ^ 8 + u8 (swap16 x >>> 8) ≡ x
big_endian16 x h = omega (arith, swap16_bytes x)

big_endian32 :
    (x : ℕ)
    → x < 2 ^ 32
    → u8 (swap32 x) * 2 ^ 24
        + u8 (swap32 x >>> 8) * 2 ^ 16
        + u8 (swap32 x >>> 16) * 2 ^ 8
        + u8 (swap32 x >>> 24)
      ≡ x
big_endian32 x h = omega (arith, swap32_bytes x)

-- The block has 12 bytes. Its first byte tells the direction; the protocol, the com id and the
-- number of bytes come back from it, the last two with the high byte first.
pub security_cdb_fields :
    (write : Bool) (protocol com_id data_bytes : ℕ)
    → com_id < 2 ^ 16
    → data_bytes < 2 ^ 32
    → (let cdb = security_cdb write protocol com_id data_bytes in
        (length cdb ≡ 12)
        × (get_or cdb 0 0 ≡ (if write then 0xb5 else 0xa2))
        × (get_or cdb 1 0 ≡ protocol)
        × (get_or cdb 2 0 * 2 ^ 8 + get_or cdb 3 0 ≡ com_id)
        × (get_or cdb 6 0 * 2 ^ 24
              + get_or cdb 7 0 * 2 ^ 16
              + get_or cdb 8 0 * 2 ^ 8
              + get_or cdb 9 0
            ≡ data_bytes))
unfolding security_cdb
security_cdb_fields write protocol com_id data_bytes hc hd =
    (refl, refl, refl, big_endian16 com_id hc, big_endian32 data_bytes hd)

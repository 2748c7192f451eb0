-- ===== src/Drive/Sanitize/Key.antt =====
-- The key of a sanitize request in the registers, and what the estimates say.
use jcu_dparm.Common.{ℕ, ◌*◌, ◌%◌, ◌^◌, ◌≤◌, ◌<◌, ◌≡◌, refl, arith, Bool}
use jcu_dparm.Common.Bits.{bit_or_high}
use jcu_dparm.Ata.{tf_to_lba}
use jcu_dparm.Ata.Address.{tf_to_lba_wide}
use jcu_dparm.Drive.Sanitize.{SanitizeOptions, SanitizeFeature, sanitize_tf, sanitize_key}
use jcu_dparm.Drive.Sanitize.{Seconds, ata_est_to_seconds, feature_register}
use jcu_dparm.Drive.Sanitize

-- The key of every feature fits into 48 bits.
sanitize_key_bound : (o : SanitizeOptions) → o.overwrite_pattern < 2 ^ 32 → sanitize_key o < 2 ^ 48
unfolding sanitize_key
sanitize_key_bound o h = ground (arith, bit_or_high 32 0x4F57 o.overwrite_pattern h)

-- For a pattern of 32 bits, the registers of a request carry its key whole: read back as a 48-bit
-- address they are the key, whatever the feature.
pub tf_to_lba-sanitize_tf :
    (o : SanitizeOptions)
    → o.overwrite_pattern < 2 ^ 32
    → tf_to_lba (sanitize_tf o) ≡ sanitize_key o
unfolding sanitize_tf
tf_to_lba-sanitize_tf o h =
    tf_to_lba_wide (sanitize_tf o) (sanitize_key o) (sanitize_key_bound o h) refl (refl, refl, refl)
      (refl, refl, refl)

-- A reported ATA estimate is even, positive, and at most 65532 seconds; it is at least twice the
-- field of the identify data. Every other answer is one of the three negative codes.
pub ata_est_to_seconds_lem :
    (time : ℕ) (extended : Bool) (s : ℕ)
    → ata_est_to_seconds time extended ≡ Sanitize.reported s
    → (0 < s) × (2 * time ≤ s) × (s ≤ 65532) × (s % 2 ≡ 0)
unfolding ata_est_to_seconds
ata_est_to_seconds_lem time extended s e = ground arith

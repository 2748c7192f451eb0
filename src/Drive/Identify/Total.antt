-- ===== src/Drive/Identify/Total.antt =====
-- The identify data is read within its bounds, whatever the driver has put there.
use jcu_dparm.Common.{ℕ, zero, suc, ◌+◌, ◌-◌, ◌*◌, ◌≤◌, ◌≡◌, inl, inr, refl}
use jcu_dparm.Common.{arith, List, [], ◌∷◌, true, Bool-cases, ◌==◌, ltb}
use jcu_dparm.Common.{Outcome, done, length, take, drop, length-take, length-drop, read_bytes-take}
use jcu_dparm.Intl.{swapped_before_zero, fix_ata_string_order, read_string_range}
use jcu_dparm.Intl.{read_string}
use jcu_dparm.Intl.Reads.{before_zero-IsDone}
use jcu_dparm.Drive.Driver.{is_atapi, is_nvme}
use jcu_dparm.Drive.Identify.{DriveInfo, Identity, ata_text, parse_ata, parse_nvme}
use jcu_dparm.Drive.Identify.{parse_identify_device}

abbrev IsDone : {A : Type 0} → Outcome A → Type 0
IsDone {A} m = (a : A) × (m ≡ done a)

swapped-IsDone :
    (pairs : ℕ) (m : List ℕ) → 2 * pairs ≤ length m → IsDone (swapped_before_zero pairs m)
unfolding swapped_before_zero
swapped-IsDone zero m h = ([], refl)
swapped-IsDone (suc pairs) [] h = absurd (omega arith)
swapped-IsDone (suc pairs) (x ∷ []) h = absurd (omega arith)
swapped-IsDone (suc pairs) (x ∷ (y ∷ m)) h =
    let (t, e) = swapped-IsDone pairs m (omega arith) in
    elim (Bool-cases (y == 0)) [
      | inl last ↦ ([], rw last refl)
      | inr more ↦ elim (Bool-cases (x == 0)) [
        | inl last ↦ (y ∷ [], rw (more, last) refl)
        | inr further ↦ (y ∷ (x ∷ t), rw (more, further, e) refl)
      ]
    ]

-- A field of `n` bytes at byte `k` of a structure of `size` bytes.
length-field :
    (k n size : ℕ) (raw : List ℕ)
    → size ≤ length raw
    → k + n ≤ size
    → length (take n (drop k (take size raw))) ≡ n
length-field k n size raw h g = omega (
  arith,
  length-take n (drop k (take size raw)),
  length-drop k (take size raw),
  length-take size raw,
)

ata_text-IsDone :
    (k pairs : ℕ) (raw : List ℕ)
    → 512 ≤ length raw
    → k + 2 * pairs ≤ 512
    → IsDone (ata_text (take (2 * pairs) (drop k (take 512 raw))) pairs)
unfolding fix_ata_string_order
ata_text-IsDone k pairs raw h g =
    let (t, e) =
      swapped-IsDone pairs (take (2 * pairs) (drop k (take 512 raw)))
        (omega (arith, length-field k (2 * pairs) 512 raw h g)) in
    rw e (_, refl)

nvme_text-IsDone :
    (k n : ℕ) (raw : List ℕ)
    → 4096 ≤ length raw
    → k + n ≤ 4096
    → IsDone (read_string_range (take n (drop k (take 4096 raw))) 0 n true)
unfolding read_string_range read_string
nvme_text-IsDone k n raw h g =
    let same : n - 0 ≡ n = omega arith in
    let (t, e) =
      before_zero-IsDone n (take n (drop k (take 4096 raw)))
        (omega (arith, length-field k n 4096 raw h g)) in
    rw (same, e) (_, refl)

parse_ata-IsDone : (raw : List ℕ) (i : DriveInfo) → IsDone (parse_ata raw i)
unfolding parse_ata
parse_ata-IsDone raw i = elim (Bool-cases (ltb (length raw) 512)) [
  | inl short ↦ rw short (_, refl)
  | inr full ↦
      let large : 512 ≤ length raw = ground arith in
      let (model, em) = ata_text-IsDone 54 20 raw large (omega arith) in
      let (firmware, ef) = ata_text-IsDone 46 4 raw large (omega arith) in
      let (serial, es) = ata_text-IsDone 20 10 raw large (omega arith) in
      rw (full, read_bytes-take 512 raw large, em, ef, es) (_, refl)
]

parse_nvme-IsDone : (raw : List ℕ) (i : DriveInfo) → IsDone (parse_nvme raw i)
unfolding parse_nvme
parse_nvme-IsDone raw i = elim (Bool-cases (ltb (length raw) 4096)) [
  | inl short ↦ rw short (_, refl)
  | inr full ↦
      let large : 4096 ≤ length raw = ground arith in
      let (serial, es) = nvme_text-IsDone 4 20 raw large (omega arith) in
      let (model, em) = nvme_text-IsDone 24 40 raw large (omega arith) in
      let (firmware, ef) = nvme_text-IsDone 64 8 raw large (omega arith) in
      rw (full, read_bytes-take 4096 raw large, es, em, ef) (_, refl)
]

-- Whatever bytes, and however few, the driver has read, `parseIdentifyDevice` ends without a read
-- out of bounds.
pub parse_identify_device-IsDone :
    {W : Type 0} (driver : Identity W) (i : DriveInfo)
    → (p : ℕ × DriveInfo) × (parse_identify_device driver i ≡ done p)
unfolding parse_identify_device
parse_identify_device-IsDone driver i = elim (Bool-cases (is_atapi driver.driving_type)) [
  | inl ata ↦ rw ata (parse_ata-IsDone driver.ata_identify_device_buf (driver.merge_drive_info i))
  | inr other ↦ elim (Bool-cases (is_nvme driver.driving_type)) [
    | inl nvme ↦
        rw (other, nvme)
          (parse_nvme-IsDone driver.nvme_identify_device_buf (driver.merge_drive_info i))
    | inr unknown ↦ rw (other, unknown) (_, refl)
  ]
]

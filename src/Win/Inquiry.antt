-- ===== src/Win/Inquiry.antt =====
-- `getInquiryDeviceInfoImpl` of src/plat-win/drivers/driver_utils.cc: the texts of a drive, out of
-- the storage device descriptor. The call of the system is a parameter.
use jcu_dparm.Common.{ℕ, ◌-◌, ◌≤◌, ◌<◌, ◌≡◌, ◌⊎◌, inl, inr, refl, arith, List, [], drop}
use jcu_dparm.Common.{length, length-drop, if◌then◌else◌, ◌==◌, ltb, Bool-cases, true, false}
use jcu_dparm.Common.{Outcome, done, fault, ◌>>=◌}
use jcu_dparm.Err.{DparmReturn, returning, success}
use jcu_dparm.Intl.{read_string, read_string_range, trim_string}
use jcu_dparm.Intl.Reads.{before_zero-IsDone}
use jcu_dparm.Drive.Driver.{InquiryDeviceResult}
use jcu_dparm.Win.Nvme.{Reply, refused, answered, ioctl_error}

-- The offsets of STORAGE_DEVICE_DESCRIPTOR, each of them a `DWORD`.
pub record Descriptor : Type 0 where
  pub vendor_id_offset : ℕ
  pub product_id_offset : ℕ
  pub serial_number_offset : ℕ
  pub product_revision_offset : ℕ

abbrev pub descriptor_size : ℕ
descriptor_size = 4096

-- An offset of 0 leaves the field empty. Behind the end of the buffer the length is negative, and
-- `resize` throws; from 2^31 on the offset itself is negative.
unfoldable pub text_from : List ℕ → ℕ → Outcome (List ℕ)
text_from buffer offset =
    if offset == 0
    then done []
    else if ltb descriptor_size offset
    then fault
    else (read_string_range buffer offset descriptor_size true >>= λ t. done (trim_string t))

unfoldable pub inquiry_texts : List ℕ → Descriptor → Outcome InquiryDeviceResult
inquiry_texts buffer d = text_from buffer d.vendor_id_offset >>= λ vendor.
    text_from buffer d.product_id_offset >>= λ product.
    text_from buffer d.serial_number_offset >>= λ serial.
    text_from buffer d.product_revision_offset >>= λ revision. done (record {
      vendor_identification = vendor;
      product_identification = product;
      product_revision_level = revision;
      drive_serial_number = serial;
    })

abbrev empty_info : InquiryDeviceResult
empty_info = record {
  vendor_identification = [];
  product_identification = [];
  product_revision_level = [];
  drive_serial_number = [];
}

abbrev pub described :
    {W : Type 0} → Reply (Descriptor × List ℕ) × W → Outcome (DparmReturn InquiryDeviceResult × W)
described (refused e, w) = done (returning (ioctl_error e) empty_info, w)
described (answered (d, buffer), w) =
    inquiry_texts buffer d >>= λ info. done (returning success info, w)

-- The query of the handle, which returns the descriptor and the buffer behind it.
unfoldable pub get_inquiry_device_info :
    {W : Type 0}
    → (ℕ → W → Reply (Descriptor × List ℕ) × W)
    → ℕ
    → W
    → Outcome (DparmReturn InquiryDeviceResult × W)
unfolding inquiry_texts
get_inquiry_device_info query h w = described (query h w)

text_from-IsDone :
    (buffer : List ℕ) (offset : ℕ)
    → length buffer ≡ descriptor_size
    → offset ≤ descriptor_size
    → (t : List ℕ) × (text_from buffer offset ≡ done t)
unfolding text_from read_string_range read_string
text_from-IsDone buffer offset size inside = elim (Bool-cases (offset == 0)) [
  | inl zero_offset ↦ ([], rw zero_offset refl)
  | inr some_offset ↦
      let short : ltb descriptor_size offset ≡ false = ground arith in
      let (t, e) =
        before_zero-IsDone (descriptor_size - offset) (drop offset buffer)
          (omega (arith, length-drop offset buffer)) in
      rw (some_offset, short, e) (_, refl)
]

text_from-cases :
    (buffer : List ℕ) (offset : ℕ)
    → length buffer ≡ descriptor_size
    → ((offset ≤ descriptor_size) × ((t : List ℕ) × (text_from buffer offset ≡ done t)))
      ⊎ (text_from buffer offset ≡ fault)
unfolding text_from
text_from-cases buffer offset size = elim (Bool-cases (ltb descriptor_size offset)) [
  | inl behind ↦
      let some_offset : (offset == 0) ≡ false = ground arith in inr (rw (some_offset, behind) refl)
  | inr inside ↦
      let small : offset ≤ descriptor_size = ground arith in
      inl (small, text_from-IsDone buffer offset size small)
]

-- The texts of a drive can be read exactly if no offset of its descriptor is behind the 4096 bytes of
-- the buffer; a drive or a bridge with a larger one ends the program.
pub inquiry_texts_lem :
    (buffer : List ℕ) (d : Descriptor)
    → length buffer ≡ descriptor_size
    → ((d.vendor_id_offset ≤ descriptor_size)
        → (d.product_id_offset ≤ descriptor_size)
        → (d.serial_number_offset ≤ descriptor_size)
        → (d.product_revision_offset ≤ descriptor_size)
        → (i : InquiryDeviceResult) × (inquiry_texts buffer d ≡ done i))
      × (((descriptor_size < d.vendor_id_offset)
            ⊎ ((descriptor_size < d.product_id_offset)
                ⊎ ((descriptor_size < d.serial_number_offset)
                    ⊎ (descriptor_size < d.product_revision_offset))))
          → inquiry_texts buffer d ≡ fault)
unfolding inquiry_texts
inquiry_texts_lem buffer d size = (
  λ v p s r.
      let (vendor, ev) = text_from-IsDone buffer d.vendor_id_offset size v in
      let (product, ep) = text_from-IsDone buffer d.product_id_offset size p in
      let (serial, es) = text_from-IsDone buffer d.serial_number_offset size s in
      let (revision, er) = text_from-IsDone buffer d.product_revision_offset size r in
      rw (ev, ep, es, er) (_, refl),
  λ behind. elim (text_from-cases buffer d.vendor_id_offset size) [
    | inr f ↦ rw f refl
    | inl (v, (vendor, ev)) ↦ rw ev (elim (text_from-cases buffer d.product_id_offset size) [
      | inr f ↦ rw f refl
      | inl (p, (product, ep)) ↦ rw ep (elim (text_from-cases buffer d.serial_number_offset size) [
        | inr f ↦ rw f refl
        | inl (s, (serial, es)) ↦
            rw es (elim (text_from-cases buffer d.product_revision_offset size) [
              | inr f ↦ rw f refl
              | inl (r, e) ↦ absurd (ground arith)
            ])
      ])
    ])
  ],
)

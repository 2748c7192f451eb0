-- ===== src/Linux/Inquiry.antt =====
-- `inquiryDeviceInfo` of src/plat-linux/drivers/sg_driver.cc: the standard INQUIRY, and the page of
-- the serial number.
use jcu_dparm.Common.{ℕ, ◌≤◌, ◌<◌, ◌≡◌, ◌≢◌, refl, arith}
use jcu_dparm.Common.{List, [], ◌∷◌, replicate, Bool, true, false, Option, none, some}
use jcu_dparm.Common.{if◌then◌else◌, ◌==◌, not, bit_and, drop, length, length-drop, All, All-drop}
use jcu_dparm.Common.{Outcome, done, fault, ◌>>=◌}
use jcu_dparm.Err.{DparmResult, DparmReturn, success, returning, ioctl_failed}
use jcu_dparm.Intl.{read_string, trim_string}
use jcu_dparm.Ata.Identify.{byte_at}
use jcu_dparm.Intl.Reads.{before_zero-IsDone, before_zero-fault}
use jcu_dparm.Drive.Driver.{InquiryDeviceResult}
use jcu_dparm.Linux.Sgio.{SgIo, SgRequest, IoctlResult, from_dev}

-- `InquiryDeviceResult info = {}`
abbrev pub no_inquiry : InquiryDeviceResult
no_inquiry = record {
  vendor_identification = [];
  product_identification = [];
  product_revision_level = [];
  drive_serial_number = [];
}

abbrev pub payload_size : ℕ
payload_size = 192

-- The request of the round `i`, which asks for the page of the serial number in the second one.
unfoldable pub inquiry_request : Bool → SgRequest
inquiry_request serial = record {
  cdb = 0x12 ∷ (if serial then 1 else 0) ∷ (if serial then 0x80 else 0) ∷ 0 ∷ payload_size ∷ 0 ∷ [];
  cmd_len = 6;
  mx_sb_len = 32;
  dxfer_direction = from_dev;
  dxfer_len = payload_size;
  pack_id = 0;
  timeout = 5000;
}

-- A failure, or the payload.
pub data Inquired : Type 0 where
  inquiry_failed : DparmResult → Inquired
  payload : List ℕ → Inquired

abbrev pub payload_bytes : Option (List ℕ) → List ℕ
payload_bytes none = []
payload_bytes (some d) = d

unfoldable pub inquired : IoctlResult → Inquired
inquired (IoctlResult.refused e) =
    inquiry_failed record { code = ioctl_failed; sys_error = e; drive_status = 0 }
inquired (IoctlResult.answered r) =
    if not (bit_and r.info 0x1 == 0)
    then inquiry_failed record { code = ioctl_failed; sys_error = 0; drive_status = r.info }
    else payload (payload_bytes r.data_in)

-- `trimString(readString(&payload_buffer[begin], n))`
abbrev pub text_at : List ℕ → ℕ → ℕ → Outcome (List ℕ)
text_at buffer begin n = read_string (drop begin buffer) n true >>= λ text. done (trim_string text)

unfoldable pub standard_texts : List ℕ → InquiryDeviceResult → Outcome InquiryDeviceResult
standard_texts buffer info = text_at buffer 8 8 >>= λ vendor. text_at buffer 16 16 >>= λ product.
    text_at buffer 32 4 >>= λ revision. done (record info {
      vendor_identification = vendor;
      product_identification = product;
      product_revision_level = revision;
    })

unfoldable pub serial_text : List ℕ → Outcome (List ℕ)
serial_text buffer = text_at buffer 4 (byte_at buffer 3)

module _ {W : Type 0} (ioctl : SgIo W) where
  unfoldable pub inquiry_device_info : W → Outcome (DparmReturn InquiryDeviceResult × W)
  unfolding inquired inquiry_request standard_texts serial_text
  inquiry_device_info w =
      let blank = some (replicate payload_size 0) in
      let (first, w') = ioctl (inquiry_request false) blank w in
      elim (inquired first) [
        | inquiry_failed r ↦ done (returning r no_inquiry, w')
        | payload buffer ↦
            (standard_texts buffer no_inquiry >>= λ info.
            (let (second, w'') = ioctl (inquiry_request true) blank w' in
              elim (inquired second) [
                | inquiry_failed r ↦ done (returning r no_inquiry, w'')
                | payload page ↦
                    (serial_text page >>= λ serial.
                    done (returning success (record info { drive_serial_number = serial }), w''))
              ]))
      ]

-- The length of the serial number comes from the drive. In a page of 192 bytes a length of at most
-- 188 is read inside the buffer; a greater one, with no zero byte to stop at, is read past its
-- end.
pub serial_text_overread :
    (buffer : List ℕ)
    → length buffer ≡ payload_size
    → (byte_at buffer 3 ≤ 188 → serial_text buffer ≢ fault)
      × (188 < byte_at buffer 3 → All (λ x. (x == 0) ≡ false) buffer → serial_text buffer ≡ fault)
unfolding serial_text read_string
serial_text_overread buffer size = (inside, past)
  where
    inside : byte_at buffer 3 ≤ 188 → serial_text buffer ≢ fault
    inside short =
        let (t, e) =
          before_zero-IsDone (byte_at buffer 3) (drop 4 buffer)
            (omega (arith, length-drop 4 buffer)) in
        rw e (λ same. cc)

    past : 188 < byte_at buffer 3 → All (λ x. (x == 0) ≡ false) buffer → serial_text buffer ≡ fault
    past long set =
        rw
          (before_zero-fault (byte_at buffer 3) (drop 4 buffer)
            (omega (arith, length-drop 4 buffer)) (All-drop (λ x. (x == 0) ≡ false) 4 buffer set))
          refl

-- ===== src/Linux/Apt.antt =====
-- src/plat-linux/apt.cc: USB bridges that need their own pass-through commands, which are those of
-- JMicron. The attributes `idVendor`, `idProduct` and `bcdDevice` that sysfs_get_attr_recursive
-- reads are arguments, `none` where it fails.
use jcu_dparm.Common.{ℕ, List, [], ◌∷◌, ◌≡◌, arith}
use jcu_dparm.Common.{Bool, true, false, not, ◌&&◌, ◌||◌, Option, none, some, if◌then◌else◌}
use jcu_dparm.Common.{ltb, ◌==◌, bit_and, u8, u32, ◌>>>◌, get_or}
use jcu_dparm.Ata.{Tf, zero_regs, zero_tf, tf_to_lba}
use jcu_dparm.Linux.Sgio.{SgIo, SgRequest, SgResult, IoctlResult, direction, transfer_len}
use jcu_dparm.Linux.Sgio.{timeout_ms, ebade}

-- The strings `apt_ds_jmicron` and `apt_ds_unsup`, which are told apart by their addresses.
pub data AptType : Type 0 where
  jmicron unsupported : AptType

-- A row of the table. Each row has the functions of its type.
pub record AptUsbId : Type 0 where
  pub vendor_id : ℕ
  pub product_id : ℕ
  pub version : ℕ
  pub type : AptType

abbrev pub apt_usb_id_map : List AptUsbId
apt_usb_id_map =
    record { vendor_id = 0x152d; product_id = 0x2329; version = 0x0100; type = AptType.jmicron }
    ∷ record { vendor_id = 0x152d; product_id = 0x2336; version = 0x0100; type = AptType.jmicron }
    ∷ record { vendor_id = 0x152d; product_id = 0x2338; version = 0x0100; type = AptType.jmicron }
    ∷ record { vendor_id = 0x152d; product_id = 0x2339; version = 0x0100; type = AptType.jmicron }
    ∷ []

-- `struct apt_data_struct` in a `scsi_sg_device`.
pub record AptData : Type 0 where
  pub is_apt : Bool
  pub type : Option AptType
  pub port : ℕ

-- `scsi_sg_device dev = {0}`
abbrev pub no_apt : AptData
no_apt = record { is_apt = false; type = none; port = 0 }

-- A round of the loop over the table.
unfoldable pub match_entry : ℕ → ℕ → ℕ → AptUsbId → Option AptType → Option AptType
match_entry vendor product version e type =
    if (e.vendor_id == vendor) && (e.product_id == product)
    then elim type [
      | some t ↦ some (if ltb 0 e.version && (e.version == version) then e.type else t)
      | none ↦ some e.type
    ]
    else type

unfoldable pub find_type : ℕ → ℕ → ℕ → List AptUsbId → Option AptType → Option AptType
unfolding match_entry
find_type vendor product version [] type = type
find_type vendor product version (e ∷ es) type =
    find_type vendor product version es (match_entry vendor product version e type)

-- The command of `apt_jmicron_int_sg`; `length` is `data ? data_bytes : 0`.
unfoldable pub jmicron_cdb : Bool → ℕ → ℕ → Tf → List ℕ
jmicron_cdb write length port tf =
    0xdf
    ∷ (if write then 0x00 else 0x10)
    ∷ 0x00
    ∷ u8 (length >>> 8)
    ∷ u8 length
    ∷ tf.lob.feat
    ∷ tf.lob.nsect
    ∷ tf.lob.lbal
    ∷ tf.lob.lbam
    ∷ tf.lob.lbah
    ∷ u8 port
    ∷ tf.command
    ∷ []

module _ {W : Type 0} (ioctl : SgIo W) where
  -- `apt_jmicron_int_sg`, with the port that the device keeps. The registers are not changed, and the data is not cleared first.
  unfoldable pub apt_jmicron_int_sg :
      ℕ → Bool → Tf → Option (List ℕ) → ℕ → ℕ → ℕ → W → SgResult × Option (List ℕ) × W
  unfolding jmicron_cdb
  apt_jmicron_int_sg own_port write tf data' data_bytes timeout_secs port w =
      if not (tf.is_lba48 == 0)
      then (SgResult.sg_error ebade, data', w)
      else (let request : SgRequest = record {
        cdb =
            jmicron_cdb write (transfer_len data' data_bytes) (if port == 0 then own_port else port)
              tf;
        cmd_len = 12;
        mx_sb_len = 0;
        dxfer_direction = direction write data';
        dxfer_len = transfer_len data' data_bytes;
        pack_id = u32 (tf_to_lba tf);
        timeout = timeout_ms 5 timeout_secs;
      } in
          let (answer, w') = ioctl request data' w in
          elim answer [
            | IoctlResult.refused e ↦ (SgResult.sg_error e, data', w')
            | IoctlResult.answered r ↦
                if not (r.host_status == 0) || not (r.driver_status == 0)
                then (SgResult.sg_error ebade, r.data_in, w')
                else (SgResult.sg_ok, r.data_in, w')
          ])

  abbrev pub enodev : ℕ
  enodev = 19

  -- `apt_jmicron_int_get_registers` of one byte at 0x720F, from a byte that is 0.
  unfoldable pub apt_jmicron_int_get_registers : ℕ → ℕ → W → SgResult × Option (List ℕ) × W
  unfolding apt_jmicron_int_sg
  apt_jmicron_int_get_registers own_port addr w =
      let tf : Tf = record zero_tf {
        command = 0xfd;
        lob = record zero_regs { nsect = u8 (addr >>> 8); lbal = u8 addr };
      } in
      apt_jmicron_int_sg own_port false tf (some (0 ∷ [])) 1 0 0 w

  abbrev pub first_byte : Option (List ℕ) → ℕ
  first_byte none = 0
  first_byte (some d) = get_or d 0 0

  unfoldable pub apt_jmicron_int_init : AptData → W → SgResult × AptData × W
  unfolding apt_jmicron_int_get_registers
  apt_jmicron_int_init a w =
      let (r, data', w') = apt_jmicron_int_get_registers a.port 0x720F w in
      let regbuf = first_byte data' in
      elim r [
        | SgResult.sg_error e ↦ (SgResult.sg_error e, a, w')
        | _ ↦
            if not (bit_and regbuf 0x04 == 0)
            then (SgResult.sg_ok, record a { port = 0xa0 }, w')
            else if not (bit_and regbuf 0x40 == 0)
            then (SgResult.sg_ok, record a { port = 0xb0 }, w')
            else (SgResult.sg_error enodev, a, w')
      ]

  -- `apt_detect`, whose result `SgDriver::open` ignores.
  unfoldable pub apt_detect : Option ℕ → Option ℕ → Option ℕ → AptData → W → SgResult × AptData × W
  unfolding find_type apt_jmicron_int_init
  apt_detect none product version a w = (SgResult.sg_ok, record a { is_apt = false }, w)
  apt_detect (some v) none version a w = (SgResult.sg_ok, record a { is_apt = false }, w)
  apt_detect (some v) (some p) none a w = (SgResult.sg_ok, record a { is_apt = false }, w)
  apt_detect (some v) (some p) (some version) a w =
      let type = find_type v p version apt_usb_id_map a.type in
      let found : AptData = record { is_apt = true; type = type; port = a.port } in
      elim type [
        | some AptType.jmicron ↦ apt_jmicron_int_init found w
        | some AptType.unsupported ↦
            (SgResult.sg_ok, record a { is_apt = false; type = some AptType.unsupported }, w)
        | none ↦ (SgResult.sg_ok, record a { is_apt = false; type = none }, w)
      ]

-- A product of the table.
abbrev pub is_jmicron_product : ℕ → Bool
is_jmicron_product p = p == 0x2329 || (p == 0x2336 || (p == 0x2338 || p == 0x2339))

-- From a cleared device, the loop over the table finds a bridge exactly for the four products of
-- JMicron, whatever version they report.
pub find_type_lem :
    (vendor product version : ℕ)
    → find_type vendor product version apt_usb_id_map none
      ≡ (if (vendor == 0x152d) && is_jmicron_product product then some AptType.jmicron else none)
unfolding find_type match_entry
find_type_lem vendor product version = ground arith

-- ===== src/Linux/Sgio.antt =====
-- src/plat-linux/sgio.cc: the SG_IO requests for ATA commands, and what is made of their replies.
-- The system call is a parameter; what is printed at the verbose levels is left out.
use jcu_dparm.Common.{ℕ, ◌+◌, ◌*◌, ◌%◌, ◌^◌, List, [], ◌∷◌, ◌++◌}
use jcu_dparm.Common.{Bool, true, false, not, ◌&&◌, ◌||◌, Option, none, some, if◌then◌else◌}
use jcu_dparm.Common.{ltb, ◌==◌, bit_and, bit_or, u32, get_or, drop, replicate}
use jcu_dparm.Ata.{Tf, zero_regs, tf_to_lba}

-- SG_DXFER_NONE, SG_DXFER_TO_DEV, SG_DXFER_FROM_DEV.
pub data Direction : Type 0 where
  no_transfer to_dev from_dev : Direction

-- The fields of `struct scsi_sg_io_hdr` that a request sets. The array of the command has 16
-- bytes, of which the first `cmd_len` count.
pub record SgRequest : Type 0 where
  pub cdb : List ℕ
  pub cmd_len : ℕ
  pub mx_sb_len : ℕ
  pub dxfer_direction : Direction
  pub dxfer_len : ℕ
  pub pack_id : ℕ
  pub timeout : ℕ

-- What the system call writes: the statuses, the bytes of the sense buffer, whose others stay 0,
-- and the data.
pub record SgReply : Type 0 where
  pub status : ℕ
  pub host_status : ℕ
  pub driver_status : ℕ
  pub info : ℕ
  pub sense : List ℕ
  pub data_in : Option (List ℕ)

-- `ioctl(fd, SG_IO, &io_hdr)`: -1 with an errno, or a reply.
pub data IoctlResult : Type 0 where
  refused : ℕ → IoctlResult
  answered : SgReply → IoctlResult

abbrev pub SgIo : Type 0 → Type 0
SgIo W = SgRequest → Option (List ℕ) → W → IoctlResult × W

-- -1 with an errno, 0, and 1.
pub data SgResult : Type 0 where
  sg_error : ℕ → SgResult
  sg_ok : SgResult
  sg_no_sense : SgResult

abbrev pub eio : ℕ
eio = 5

abbrev pub ebade : ℕ
ebade = 52

abbrev pub has_data : Option (List ℕ) → Bool
has_data none = false
has_data (some d) = true

-- `if (data && data_bytes && !rw) memset(data, 0, data_bytes)`
abbrev pub clear_data : Bool → ℕ → Option (List ℕ) → Option (List ℕ)
clear_data write data_bytes none = none
clear_data true data_bytes (some d) = some d
clear_data false data_bytes (some d) = some (replicate data_bytes 0 ++ drop data_bytes d)

abbrev pub direction : Bool → Option (List ℕ) → Direction
direction write none = Direction.no_transfer
direction write (some d) = if write then Direction.to_dev else Direction.from_dev

abbrev pub transfer_len : Option (List ℕ) → ℕ → ℕ
transfer_len none data_bytes = 0
transfer_len (some d) data_bytes = data_bytes

-- `(timeout_secs ? timeout_secs : default_timeout_secs) * 1000`
abbrev pub timeout_ms : ℕ → ℕ → ℕ
timeout_ms default timeout_secs = u32 ((if timeout_secs == 0 then default else timeout_secs) * 1000)

-- The protocol in `cdb[1]`, without the bit of 48-bit commands.
unfoldable pub protocol : Bool → Bool → Bool → ℕ
protocol write dma data' =
    if data' then (if dma then 6 * 2 else if write then 5 * 2 else 4 * 2) else 3 * 2

-- `cdb[2]`.
unfoldable pub transfer_flags : Bool → Bool → ℕ
transfer_flags write data' = if data' then bit_or (bit_or 2 4) (if write then 0 else 8) else 2 ^ 5

-- The command descriptor block, of which `prefer12` asks for the short form.
unfoldable pub sg_cdb : Bool → Bool → Bool → Bool → Tf → List ℕ
unfolding protocol transfer_flags
sg_cdb prefer12 write dma data' tf =
    let p = protocol write dma data' in
    let t = transfer_flags write data' in
    let wide = not (tf.is_lba48 == 0) in
    let l = tf.lob in
    let h = if wide then tf.hob else zero_regs in
    if not prefer12 || wide
    then 0x85
      ∷ (if wide then bit_or p 1 else p)
      ∷ t
      ∷ h.feat
      ∷ l.feat
      ∷ h.nsect
      ∷ l.nsect
      ∷ h.lbal
      ∷ l.lbal
      ∷ h.lbam
      ∷ l.lbam
      ∷ h.lbah
      ∷ l.lbah
      ∷ tf.dev
      ∷ tf.command
      ∷ 0
      ∷ []
    else 0xa1 ∷ p ∷ t ∷ l.feat ∷ l.nsect ∷ l.lbal ∷ l.lbam ∷ l.lbah ∷ tf.dev ∷ tf.command ∷ 0 ∷ 0
      ∷ 0 ∷ 0 ∷ 0 ∷ 0 ∷ []

abbrev pub prefer_ata12 : Bool
prefer_ata12 = false

-- The tests of a reply, in their order: the errno of a bad status, or whether there is sense data
-- that is no ATA descriptor.
unfoldable pub bad_status : SgReply → Bool
bad_status r =
    (not (r.status == 0) && not (r.status == 0x02))
    || (not (r.host_status == 0) || (not (r.driver_status == 0) && not (r.driver_status == 0x08)))

abbrev pub sense_byte : SgReply → ℕ → ℕ
sense_byte r i = get_or r.sense i 0

unfoldable pub missing_sense : SgReply → Bool
missing_sense r =
    (r.driver_status == 0x08)
    && (not (sense_byte r 0 == 0x72)
        || (ltb (sense_byte r 7) 14 || (not (sense_byte r 8 == 0x09) || ltb (sense_byte r 9) 0x0c)))

-- ATA_STAT_ERR and ATA_STAT_DRQ.
unfoldable pub has_failed : ℕ → Bool
has_failed status = not (bit_and status (bit_or 1 8) == 0)

-- The registers out of the descriptor at byte 8 of the sense data.
unfoldable pub reply_tf : SgReply → Tf → Tf
reply_tf r tf =
    let desc = λ (i : ℕ). sense_byte r (8 + i) in
    let wide = bit_and (desc 2) 1 in
    record {
      dev = desc 12;
      command = tf.command;
      error = desc 3;
      status = desc 13;
      is_lba48 = wide;
      lob = record {
        feat = tf.lob.feat;
        nsect = desc 5;
        lbal = desc 7;
        lbam = desc 9;
        lbah = desc 11;
      };
      hob =
          if not (wide == 0)
          then record { feat = 0; nsect = desc 4; lbal = desc 6; lbam = desc 8; lbah = desc 10 }
          else zero_regs;
    }

-- The end of both functions, on the status register.
unfoldable pub final_result : ℕ → Bool → SgResult
unfolding has_failed
final_result status no_sense =
    if has_failed status
    then SgResult.sg_error eio
    else if no_sense
    then SgResult.sg_no_sense
    else SgResult.sg_ok

-- The request of `sg16`.
unfoldable pub sg16_request : Bool → Bool → Tf → Option (List ℕ) → ℕ → ℕ → ℕ → SgRequest
unfolding sg_cdb
sg16_request write dma tf data' data_bytes timeout_secs sense_size =
    let prefer12 = if tf.command == 0xa1 then false else prefer_ata12 in
    record {
      cdb = sg_cdb prefer12 write dma (has_data data') tf;
      cmd_len = if not prefer12 || not (tf.is_lba48 == 0) then 16 else 12;
      mx_sb_len = sense_size % 256;
      dxfer_direction = direction write data';
      dxfer_len = transfer_len data' data_bytes;
      pack_id = u32 (tf_to_lba tf);
      timeout = timeout_ms 15 timeout_secs;
    }

-- What `sg16` makes of the end of the system call: the result, the registers, the data, and
-- `dev->last_errno`.
unfoldable pub sg16_reply :
    Tf → Option (List ℕ) → ℕ → IoctlResult → SgResult × Tf × Option (List ℕ) × ℕ
unfolding bad_status missing_sense final_result reply_tf
sg16_reply tf cleared last_errno (IoctlResult.refused e) = (SgResult.sg_error e, tf, cleared, e)
sg16_reply tf cleared last_errno (IoctlResult.answered r) =
    if bad_status r
    then (SgResult.sg_error ebade, tf, r.data_in, last_errno)
    else (let tf' = reply_tf r tf in
        (final_result tf'.status (missing_sense r), tf', r.data_in, last_errno))

module _ {W : Type 0} (ioctl : SgIo W) where
  -- `do_sg_ata`, with `dev->last_errno` where it is set.
  unfoldable pub do_sg_ata :
      Bool
      → List ℕ
      → ℕ
      → Option (List ℕ)
      → ℕ
      → ℕ
      → ℕ
      → ℕ
      → ℕ
      → W
      → SgResult × Option (List ℕ) × ℕ × W
  unfolding bad_status missing_sense final_result
  do_sg_ata write cdb cdb_bytes data' data_bytes pack_id timeout_secs sense_size last_errno w =
      let cleared = clear_data write data_bytes data' in
      let request : SgRequest = record {
        cdb = cdb;
        cmd_len = cdb_bytes % 256;
        mx_sb_len = sense_size % 256;
        dxfer_direction = direction write data';
        dxfer_len = transfer_len data' data_bytes;
        pack_id = pack_id;
        timeout = timeout_ms 15 timeout_secs;
      } in
      let (answer, w') = ioctl request cleared w in
      elim answer [
        | IoctlResult.refused e ↦ (SgResult.sg_error e, cleared, e, w')
        | IoctlResult.answered r ↦
            if bad_status r
            then (SgResult.sg_error ebade, r.data_in, last_errno, w')
            else (final_result (sense_byte r (8 + 13)) (missing_sense r), r.data_in, last_errno, w')
      ]

  -- `sg16` of a device that is not behind a bridge.
  unfoldable pub sg16_direct :
      Bool
      → Bool
      → Tf
      → Option (List ℕ)
      → ℕ
      → ℕ
      → ℕ
      → ℕ
      → W
      → (SgResult × Tf × Option (List ℕ) × ℕ) × W
  unfolding sg16_request sg16_reply
  sg16_direct write dma tf data' data_bytes timeout_secs sense_size last_errno w =
      let cleared = clear_data write data_bytes data' in
      let request = sg16_request write dma tf data' data_bytes timeout_secs sense_size in
      let (answer, w') = ioctl request cleared w in (sg16_reply tf cleared last_errno answer, w')

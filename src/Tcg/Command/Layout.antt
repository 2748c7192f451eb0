-- ===== src/Tcg/Command/Layout.antt =====
-- What `complete`, `getCmdSize` and `getCmdBuf` give: the lengths in the header, the padding, and
-- the sizes of the buffer and of the transfer.
use jcu_dparm.Common.{ℕ, zero, suc, ◌+◌, ◌-◌, ◌%◌, ◌≤◌, ◌<◌, ◌≡◌, refl, ◌∙◌, arith}
use jcu_dparm.Common.{Bool, true, false, List, [], ◌∷◌, ◌++◌}
use jcu_dparm.Common.{if◌then◌else◌, length, length-append, length-replicate, replicate}
use jcu_dparm.Common.{u32, le32, swap32, swap32-swap32, append-nil}
use jcu_dparm.Tcg.Types.{max_buffer_length, header_size, com_packet_size, packet_size}
use jcu_dparm.Tcg.Command.{Command, IsValid, cmd_pos, put_byte, put_bytes, pad_to_four, finish}
use jcu_dparm.Tcg.Command.{check_cmd_buf_write, complete, get_cmd_size, get_cmd_buf, header_bytes}
use jcu_dparm.Tcg.Command.{end_of_data_list}
use jcu_dparm.Tcg.Command.Encoding.{check_cmd_buf_write_lem, put_byte-IsValid, put_bytes-IsValid}
use jcu_dparm.Tcg.Command.Encoding.{put_bytes-put_byte}

-- Zeros up to the next multiple of four.
abbrev pub padding : ℕ → List ℕ
padding n = replicate ((4 - n % 4) % 4) 0x00

-- The loop of `complete` appends exactly the padding: its check never fails, as a multiple of four
-- is still within the buffer.
pad_to_four-aligned :
    (k p : ℕ) (c : Command)
    → IsValid c
    → p ≡ (4 - cmd_pos c % 4) % 4
    → p ≤ k
    → pad_to_four k c ≡ (put_bytes (replicate p 0x00) c, true)
unfolding pad_to_four
pad_to_four-aligned zero zero c v e h = ground (arith, append-nil c.payload)
pad_to_four-aligned zero (suc p) c v e h = absurd (omega arith)
pad_to_four-aligned (suc k) zero c v e h = ground (arith, append-nil c.payload)
pad_to_four-aligned (suc k) (suc p) c v e h = ground (
  arith,
  check_cmd_buf_write_lem c 1 v,
  length-append c.payload (0x00 ∷ []),
  put_bytes-put_byte 0x00 (replicate p 0x00) c,
  pad_to_four-aligned k p (put_byte 0x00 c) (put_byte-IsValid 0x00 c v (omega arith) (omega arith)),
)

-- What a completed command is: the payload as it stood, the padding, and the three lengths. The
-- subpacket's length leaves the padding out.
pub record IsCompleted (before : List ℕ) (c : Command) : Type 0 where
  pub padded : c.payload ≡ before ++ padding (header_size + length before)
  pub aligned : cmd_pos c % 4 ≡ 0
  pub subpkt : swap32 c.subpkt_length ≡ length before
  pub pkt : swap32 c.pkt_length + 44 ≡ cmd_pos c
  pub cp : swap32 c.cp_length + 20 ≡ cmd_pos c

-- The command that `finish` leaves.
unfoldable pub finished : Command → Command
finished c =
    let c2 = put_bytes (padding (cmd_pos c)) c in
    record c2 {
      subpkt_length = swap32 (u32 (cmd_pos c - header_size));
      pkt_length = swap32 (u32 (cmd_pos c2 - com_packet_size - packet_size));
      cp_length = swap32 (u32 (cmd_pos c2 - com_packet_size));
    }

pub finish-eq-finished : (c : Command) → IsValid c → finish c ≡ (finished c, true)
unfolding finish finished
finish-eq-finished c v =
    let started = record c { subpkt_length = swap32 (u32 (cmd_pos c - header_size)) } in
    let valid : IsValid started = record {
      fits = v.fits;
      com_id_size = v.com_id_size;
      bytes = v.bytes;
    } in
    rw (pad_to_four-aligned 3 ((4 - cmd_pos c % 4) % 4) started valid refl (omega arith))

finished-IsCompleted : (c : Command) → IsValid c → IsCompleted c.payload (finished c)
unfolding finished
finished-IsCompleted c v = record {
  padded = refl;
  aligned = omega (arith, end_pos);
  subpkt = swap32-swap32 _ (omega arith) ∙ omega arith;
  pkt = omega (arith, swap32-swap32 (u32 (cmd_pos whole - 20 - 24)) (omega arith), end_pos);
  cp = omega (arith, swap32-swap32 (u32 (cmd_pos whole - 20)) (omega arith), end_pos);
}
  where
    whole : Command
    whole = put_bytes (padding (cmd_pos c)) c

    end_pos : cmd_pos whole ≡ cmd_pos c + (4 - cmd_pos c % 4) % 4
    end_pos = omega (
      arith,
      length-append c.payload (padding (cmd_pos c)),
      length-replicate {A = ℕ} ((4 - cmd_pos c % 4) % 4) 0x00,
    )

finish_lem : (c : Command) → IsValid c → IsCompleted c.payload (finish c).0 × ((finish c).1 ≡ true)
finish_lem c v = rw (finish-eq-finished c v) (finished-IsCompleted c v, refl)

-- With room for the end-of-data list, `complete` succeeds and leaves the payload, that list where
-- it is asked for, the padding and the three lengths.
pub complete-IsCompleted :
    (eod : Bool) (c : Command)
    → IsValid c
    → cmd_pos c + 6 ≤ max_buffer_length
    → IsCompleted (c.payload ++ (if eod then end_of_data_list else [])) (complete eod c).0
      × ((complete eod c).1 ≡ true)
unfolding complete
complete-IsCompleted true c v room =
    let more = put_bytes-IsValid end_of_data_list c v (omega arith) (omega arith) in
    let fits : check_cmd_buf_write c 6 ≡ true = ground (arith, check_cmd_buf_write_lem c 6 v) in
    rw fits (finish_lem (put_bytes end_of_data_list c) more)
complete-IsCompleted false c v room = rw append-nil (finish_lem c v)

-- The number of bytes of the transfer: the next multiple of 512, which the buffer still holds.
pub get_cmd_size_bounds :
    (c : Command)
    → IsValid c
    → (get_cmd_size c % 512 ≡ 0)
      × (cmd_pos c ≤ get_cmd_size c)
      × (get_cmd_size c < cmd_pos c + 512)
      × (get_cmd_size c ≤ max_buffer_length)
unfolding get_cmd_size
get_cmd_size_bounds c v = ground arith

pub length-header_bytes : (c : Command) → IsValid c → length (header_bytes c) ≡ header_size
unfolding header_bytes
length-header_bytes c v = ground (
  arith,
  length-append c.extended_com_id (
      replicate 8 0
      ++ (le32 c.cp_length
          ++ (le32 c.tsn
              ++ (le32 c.hsn
                  ++ (replicate 12 0
                      ++ (le32 c.pkt_length ++ (replicate 8 0 ++ le32 c.subpkt_length))))))),
)

-- `getCmdBuf` points at 61440 bytes.
pub length-get_cmd_buf : (c : Command) → IsValid c → length (get_cmd_buf c) ≡ max_buffer_length
unfolding get_cmd_buf
length-get_cmd_buf c v = omega (
  arith,
  v.fits,
  length-header_bytes c v,
  length-append (header_bytes c) (c.payload ++ replicate (max_buffer_length - cmd_pos c) 0),
  length-append c.payload (replicate (max_buffer_length - cmd_pos c) 0),
  length-replicate {A = ℕ} (max_buffer_length - cmd_pos c) 0,
)

-- ===== src/Tcg/Command.antt =====
-- src/tcg/tcg_command_impl.cc: the command buffer. `cmd_ptr_` points at 61440 bytes: the packed
-- header of 56 bytes, the bytes written so far, and zeros up to the end, since `reset` clears the
-- buffer and `cmd_pos_` never goes back. The header's fields are the numbers that the host stores,
-- `payload` is what stands between the header and `cmd_pos_`. A method returns the new state with
-- its `bool`.
pub mod Invariant
pub mod Layout
pub mod Encoding
use jcu_dparm.Common.{ℕ, zero, suc, ◌+◌, ◌-◌, ◌*◌, ◌/◌, ◌%◌, ◌^◌, ◌≤◌, ◌≡◌, bit_or, bit_and}
use jcu_dparm.Common.{Bool, true, false, List, [], ◌∷◌, ◌++◌, if◌then◌else◌, ltb, leb, ◌==◌}
use jcu_dparm.Common.{length, replicate, All, u8, u16, u32, le32, swap32, IsByte, ◌<<<◌, ◌>>>◌}
use jcu_dparm.Tcg.Types.{max_buffer_length, header_size, com_packet_size, packet_size}
use jcu_dparm.Tcg.Types.{call, end_of_data, start_list, end_list}

pub record Command : Type 0 where
  pub extended_com_id : List ℕ
  pub cp_length : ℕ
  pub tsn : ℕ
  pub hsn : ℕ
  pub pkt_length : ℕ
  pub subpkt_length : ℕ
  pub payload : List ℕ

abbrev pub cmd_pos : Command → ℕ
cmd_pos c = header_size + length c.payload

-- `MAX_BUFFER_LENGTH - cmd_pos_` is unsigned and wraps.
unfoldable pub check_cmd_buf_write : Command → ℕ → Bool
check_cmd_buf_write c need = leb need (u32 (max_buffer_length + 2 ^ 32 - cmd_pos c))

-- `cmd_ptr_[cmd_pos_++] = x`
abbrev pub put_byte : ℕ → Command → Command
put_byte x c = record c { payload = c.payload ++ (x ∷ []) }

-- `memcpy(cmd_ptr_ + cmd_pos_, data, length); cmd_pos_ += length`
abbrev pub put_bytes : List ℕ → Command → Command
put_bytes xs c = record c { payload = c.payload ++ xs }

-- The buffer after `memset` and `cmd_pos_ = sizeof(*header_)`.
abbrev pub empty_command : Command
empty_command = record {
  extended_com_id = 0 ∷ 0 ∷ 0 ∷ 0 ∷ [];
  cp_length = 0;
  tsn = 0;
  hsn = 0;
  pkt_length = 0;
  subpkt_length = 0;
  payload = [];
}

abbrev pub reset : Command → Command
reset _ = empty_command

unfoldable pub add_byte_token : ℕ → Command → Command × Bool
add_byte_token x c = if check_cmd_buf_write c 1 then (put_byte (u8 x) c, true) else (c, false)

unfoldable pub add_raw_token : List ℕ → Command → Command × Bool
add_raw_token xs c =
    if check_cmd_buf_write c (length xs) then (put_bytes xs c, true) else (c, false)

-- The four overloads for the token enums cast to `uint8_t`.
abbrev pub add_token : ℕ → Command → Command × Bool
add_token = add_byte_token

-- `addStringToken` with its length given: every branch falls through to `return false`.
unfoldable pub add_string_token : List ℕ → Command → Command × Bool
add_string_token text c =
    let n = length text in
    if n == 0
    then if check_cmd_buf_write c 2 then (put_byte 0x00 (put_byte 0xa1 c), false) else (c, false)
    else if ltb n 16
    then if check_cmd_buf_write c (1 + n)
      then (put_bytes text (put_byte (u8 (bit_or n 0xa0)) c), false)
      else (c, false)
    else if ltb n 2048
    then if check_cmd_buf_write c (2 + n)
      then (
        put_bytes text (put_byte (u8 n) (put_byte (u8 (bit_or 0xd0 (bit_and (n >>> 8) 0x07))) c)),
        false,
      )
      else (c, false)
    else (c, false)

-- The bytes that `strlen` counts, for a length below 0.
unfoldable pub c_str : List ℕ → List ℕ
c_str [] = []
c_str (x ∷ xs) = if x == 0 then [] else x ∷ c_str xs

unfoldable pub add_text_token : List ℕ → Command → Command × Bool
add_text_token text = add_string_token (c_str text)

-- `addToken(const OpalUID&)` and `addToken(const OpalMethod&)`.
abbrev pub add_uid_token : List ℕ → Command → Command × Bool
add_uid_token = add_string_token

-- The loop `for (i = startat; i > -1; i--)`, from `i = k - 1` on.
unfoldable pub put_number : ℕ → ℕ → Command → Command
put_number zero value c = c
put_number (suc i) value c = put_number i value (put_byte (u8 (value >>> (i * 8))) c)

-- The prefix is written before the room for the value is checked.
unfoldable pub put_wide : ℕ → ℕ → ℕ → Command → Command × Bool
put_wide prefix k value c =
    let c' = put_byte prefix c in
    if check_cmd_buf_write c' k then (put_number k value c', true) else (c', false)

unfoldable pub add_number_token : ℕ → Command → Command × Bool
add_number_token value c =
    if ltb value 64
    then if check_cmd_buf_write c 1
      then (put_byte (u8 (bit_and value 0x3f)) c, true)
      else (c, false)
    else if check_cmd_buf_write c 1
    then if ltb value 0x100
      then put_wide 0x81 1 value c
      else if ltb value 0x10000
      then put_wide 0x82 2 value c
      else if ltb value 0x100000000
      then put_wide 0x84 4 value c
      else put_wide 0x88 8 value c
    else (c, false)

-- `while (cmd_pos_ % 4)`: three rounds at most; `k` is the fuel.
unfoldable pub pad_to_four : ℕ → Command → Command × Bool
pad_to_four zero c = (c, cmd_pos c % 4 == 0)
pad_to_four (suc k) c =
    let rest = pad_to_four k (put_byte 0x00 c) in
    if cmd_pos c % 4 == 0 then (c, true) else if check_cmd_buf_write c 1 then rest else (c, false)

-- The end of `complete`: the lengths, each as the bytes of a big-endian number.
unfoldable pub finish : Command → Command × Bool
finish c =
    let c1 = record c { subpkt_length = swap32 (u32 (cmd_pos c - header_size)) } in
    let (c2, padded) = pad_to_four 3 c1 in
    if padded
    then (
      record c2 {
        pkt_length = swap32 (u32 (cmd_pos c2 - com_packet_size - packet_size));
        cp_length = swap32 (u32 (cmd_pos c2 - com_packet_size));
      },
      true,
    )
    else (c2, false)

abbrev pub end_of_data_list : List ℕ
end_of_data_list = end_of_data ∷ start_list ∷ 0x00 ∷ 0x00 ∷ 0x00 ∷ end_list ∷ []

unfoldable pub complete : Bool → Command → Command × Bool
complete true c =
    if check_cmd_buf_write c 6 then finish (put_bytes end_of_data_list c) else (c, false)
complete false c = finish c

abbrev pub set_com_id : ℕ → Command → Command
set_com_id com_id c = record c {
  extended_com_id = u8 (com_id >>> 8) ∷ u8 com_id ∷ 0x00 ∷ 0x00 ∷ [];
}

-- Both take a `uint32_t`, so a longer number is cut.
abbrev pub set_tsn : ℕ → Command → Command
set_tsn n c = record c { tsn = u32 n }

abbrev pub set_hsn : ℕ → Command → Command
set_hsn n c = record c { hsn = u32 n }

unfoldable pub get_cmd_size : Command → ℕ
get_cmd_size c = let x = cmd_pos c % 512 in if x == 0 then cmd_pos c else 512 - x + cmd_pos c

-- The 56 bytes of `opal_header_t` at `cmd_ptr_`.
unfoldable pub header_bytes : Command → List ℕ
header_bytes c =
    replicate 4 0
    ++ (c.extended_com_id
        ++ (replicate 8 0
            ++ (le32 c.cp_length
                ++ (le32 c.tsn
                    ++ (le32 c.hsn
                        ++ (replicate 12 0
                            ++ (le32 c.pkt_length ++ (replicate 8 0 ++ le32 c.subpkt_length))))))))

-- What `getCmdBuf` points at.
unfoldable pub get_cmd_buf : Command → List ℕ
get_cmd_buf c = header_bytes c ++ (c.payload ++ replicate (max_buffer_length - cmd_pos c) 0)

-- `reset(invoking_uid, method)`: the UID form, and the form with a vector of raw bytes.
unfoldable pub reset_uid : List ℕ → List ℕ → Command → Command
reset_uid uid method c = (add_uid_token method (add_uid_token uid (put_byte call (reset c))).0).0

unfoldable pub reset_raw : List ℕ → List ℕ → Command → Command
reset_raw uid method c = (add_uid_token method (add_raw_token uid (put_byte call (reset c))).0).0

-- The buffer is not overrun, and the header's first field has its four bytes.
pub record IsValid (c : Command) : Type 0 where
  pub fits : header_size + length c.payload ≤ max_buffer_length
  pub com_id_size : length c.extended_com_id ≡ 4
  pub bytes : All IsByte c.payload

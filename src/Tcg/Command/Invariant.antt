-- ===== src/Tcg/Command/Invariant.antt =====
-- No sequence of calls of the public methods of `TcgCommandImpl` overruns its buffer.
use jcu_dparm.Common.{ℕ, zero, suc, ◌<◌, refl, arith, Bool, true, false}
use jcu_dparm.Common.{List, Bool-cases, inl, inr}
use jcu_dparm.Common.{length, All, IsByte, u8, u32, swap32, ◌-◌, bit_and}
use jcu_dparm.Tcg.Types.{header_size, call}
use jcu_dparm.Tcg.Command
use jcu_dparm.Tcg.Command.{Command, IsValid, cmd_pos, put_byte, put_bytes, empty_command}
use jcu_dparm.Tcg.Command.{check_cmd_buf_write, put_wide, put_number, end_of_data_list}
use jcu_dparm.Tcg.Command.Encoding.{check_cmd_buf_write_lem, put_byte-IsValid, put_bytes-IsValid}
use jcu_dparm.Tcg.Command.Encoding.{string_encoding, add_string_token_lem, big_endian}
use jcu_dparm.Tcg.Command.Encoding.{big_endian-IsByte, length-big_endian, put_number_lem}

empty_command-IsValid : IsValid empty_command
empty_command-IsValid = omega arith

add_byte_token-IsValid : (x : ℕ) (c : Command) → IsValid c → IsValid (Command.add_byte_token x c).0
unfolding Command.add_byte_token
add_byte_token-IsValid x c v =
    ground (arith, check_cmd_buf_write_lem c 1 v, put_byte-IsValid (u8 x) c v)

add_raw_token-IsValid :
    (xs : List ℕ) (c : Command) → All IsByte xs → IsValid c → IsValid (Command.add_raw_token xs c).0
unfolding Command.add_raw_token
add_raw_token-IsValid xs c h v =
    ground (arith, check_cmd_buf_write_lem c (length xs) v, put_bytes-IsValid xs c v)

string_encoding-IsByte : (text : List ℕ) → All IsByte text → All IsByte (string_encoding text)
unfolding string_encoding
string_encoding-IsByte text h = ground arith

add_string_token-IsValid :
    (text : List ℕ) (c : Command)
    → All IsByte text
    → IsValid c
    → IsValid (Command.add_string_token text c).0
add_string_token-IsValid text c h v = ground (
  arith,
  add_string_token_lem text c v,
  put_bytes-IsValid (string_encoding text) c v,
  string_encoding-IsByte text h,
)

put_wide-IsValid :
    (prefix k value : ℕ) (c : Command)
    → prefix < 256
    → IsValid (put_byte prefix c)
    → IsValid (put_wide prefix k value c).0
unfolding put_wide
put_wide-IsValid prefix k value c h v = ground (
  arith,
  check_cmd_buf_write_lem (put_byte prefix c) k v,
  put_number_lem k value (put_byte prefix c),
  length-big_endian k value,
  put_bytes-IsValid (big_endian k value) (put_byte prefix c) v,
  big_endian-IsByte k value,
)

add_number_token-IsValid :
    (value : ℕ) (c : Command) → IsValid c → IsValid (Command.add_number_token value c).0
unfolding Command.add_number_token
add_number_token-IsValid value c v = ground (
  arith,
  check_cmd_buf_write_lem c 1 v,
  put_byte-IsValid (u8 (bit_and value 0x3f)) c v,
  put_byte-IsValid 0x81 c v,
  put_byte-IsValid 0x82 c v,
  put_byte-IsValid 0x84 c v,
  put_byte-IsValid 0x88 c v,
  put_wide-IsValid 0x81 1 value c,
  put_wide-IsValid 0x82 2 value c,
  put_wide-IsValid 0x84 4 value c,
  put_wide-IsValid 0x88 8 value c,
)

pad_to_four-IsValid : (k : ℕ) (c : Command) → IsValid c → IsValid (Command.pad_to_four k c).0
unfolding Command.pad_to_four
pad_to_four-IsValid zero c v = v
pad_to_four-IsValid (suc k) c v = ground (
  arith,
  check_cmd_buf_write_lem c 1 v,
  put_byte-IsValid 0x00 c v,
  pad_to_four-IsValid k (put_byte 0x00 c),
)

finish-IsValid : (c : Command) → IsValid c → IsValid (Command.finish c).0
unfolding Command.finish
finish-IsValid c v = elim (Bool-cases (Command.pad_to_four 3 started).1) [
  | inl padded ↦
      rw padded (record { fits = kept.fits; com_id_size = kept.com_id_size; bytes = kept.bytes })
  | inr full ↦ rw full kept
]
  where
    started : Command
    started = record c { subpkt_length = swap32 (u32 (cmd_pos c - header_size)) }

    kept : IsValid (Command.pad_to_four 3 started).0
    kept =
        pad_to_four-IsValid 3 started
          (record { fits = v.fits; com_id_size = v.com_id_size; bytes = v.bytes })

complete-IsValid : (eod : Bool) (c : Command) → IsValid c → IsValid (Command.complete eod c).0
unfolding Command.complete
complete-IsValid true c v = ground (
  arith,
  check_cmd_buf_write_lem c 6 v,
  put_bytes-IsValid end_of_data_list c v,
  finish-IsValid (put_bytes end_of_data_list c),
)
complete-IsValid false c v = finish-IsValid c v

-- The calls that a client can make. What it hands over are bytes.
pub data Step (c : Command) : Command → Type 0 where
  reset : Step c (Command.reset c)
  reset_uid :
      (uid method : List ℕ)
      → All IsByte uid
      → All IsByte method
      → Step c (Command.reset_uid uid method c)
  reset_raw :
      (uid method : List ℕ)
      → All IsByte uid
      → All IsByte method
      → Step c (Command.reset_raw uid method c)
  add_byte_token : (x : ℕ) → Step c (Command.add_byte_token x c).0
  add_raw_token : (xs : List ℕ) → All IsByte xs → Step c (Command.add_raw_token xs c).0
  add_string_token : (text : List ℕ) → All IsByte text → Step c (Command.add_string_token text c).0
  add_number_token : (value : ℕ) → Step c (Command.add_number_token value c).0
  complete : (eod : Bool) → Step c (Command.complete eod c).0
  set_com_id : (com_id : ℕ) → Step c (Command.set_com_id com_id c)
  set_tsn : (n : ℕ) → Step c (Command.set_tsn n c)
  set_hsn : (n : ℕ) → Step c (Command.set_hsn n c)

pub data Reach : Command → Type 0 where
  constructed : Reach empty_command
  next : {c d : Command} → Reach c → Step c d → Reach d

called-IsValid : IsValid (put_byte call empty_command)
called-IsValid = omega arith

pub Step-IsValid : {c d : Command} → Step c d → IsValid c → IsValid d
unfolding Command.reset_uid Command.reset_raw
Step-IsValid reset v = empty_command-IsValid
Step-IsValid (reset_uid uid method hu hm) v =
    add_string_token-IsValid method _ hm (add_string_token-IsValid uid _ hu called-IsValid)
Step-IsValid (reset_raw uid method hu hm) v =
    add_string_token-IsValid method _ hm (add_raw_token-IsValid uid _ hu called-IsValid)
Step-IsValid (add_byte_token x) v = add_byte_token-IsValid x _ v
Step-IsValid (add_raw_token xs h) v = add_raw_token-IsValid xs _ h v
Step-IsValid (add_string_token text h) v = add_string_token-IsValid text _ h v
Step-IsValid (add_number_token value) v = add_number_token-IsValid value _ v
Step-IsValid (complete eod) v = complete-IsValid eod _ v
Step-IsValid (set_com_id com_id) v = record { fits = v.fits; com_id_size = refl; bytes = v.bytes }
Step-IsValid (set_tsn n) v = record { fits = v.fits; com_id_size = v.com_id_size; bytes = v.bytes }
Step-IsValid (set_hsn n) v = record { fits = v.fits; com_id_size = v.com_id_size; bytes = v.bytes }

-- After any calls of the public methods on a new command, in any order and with any arguments that
-- are bytes, the write position is at most 61440, the com id field has its four bytes, and what
-- was written are bytes.
pub Reach-IsValid : {c : Command} → Reach c → IsValid c
Reach-IsValid constructed = empty_command-IsValid
Reach-IsValid (next r s) = Step-IsValid s (Reach-IsValid r)

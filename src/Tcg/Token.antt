-- ===== src/Tcg/Token.antt =====
-- include/jcu-dparm/tcg/tcg_token.h: a token of a response, its kind, and the value in it. A
-- `TcgTokenVO` is its vector of bytes; `fault` stands for `front()` of an empty vector and for a
-- shift of a `uint64_t` by 64 or more.
pub mod Value
use jcu_dparm.Common.{ℕ, zero, suc, ◌+◌, ◌-◌, ◌*◌, ◌%◌, ◌^◌, List, [], ◌∷◌, bit_and, bit_or}
use jcu_dparm.Common.{
  Bool, true, false, if◌then◌else◌, ltb, leb, ◌==◌, length, drop, u8, u16, u32, u64,
}
use jcu_dparm.Common.{Outcome, done, fault, stuck, ◌>>=◌, read, ◌<<<◌}
use jcu_dparm.Err.{DparmReturn, DparmResult, failed, success, returning, is_ok, illegal_data}
use jcu_dparm.Err.{code_is_ok}
use jcu_dparm.Tcg.Types.{tokenid_bytestring, tokenid_sint, tokenid_uint}

-- `!(x & mask)` and `x & mask` as tests.
abbrev pub is_clear : ℕ → ℕ → Bool
is_clear x mask = bit_and x mask == 0

-- The type of a token by its first byte.
unfoldable pub type_of_byte : ℕ → ℕ
type_of_byte t =
    if is_clear t 0x80
    then (if is_clear t 0x40 then tokenid_uint else tokenid_sint)
    else if is_clear t 0x40
    then (if is_clear t 0x20
        then (if is_clear t 0x10 then tokenid_uint else tokenid_sint)
        else tokenid_bytestring)
    else if is_clear t 0x20
    then (if is_clear t 0x10
        then (if is_clear t 0x08 then tokenid_uint else tokenid_sint)
        else tokenid_bytestring)
    else if is_clear t 0x10
    then (if is_clear t 0x02
        then (if is_clear t 0x01 then tokenid_uint else tokenid_sint)
        else tokenid_bytestring)
    else t

unfoldable pub token_type : List ℕ → Outcome ℕ
token_type buf = do t ← read buf 0; done (type_of_byte t)

-- `for (i = buf_.size() - 1; i > 0; i--)`, from the byte at index `i` down to that at 1; `b` counts
-- up from 0.
unfoldable pub gather : List ℕ → ℕ → ℕ → ℕ → Outcome ℕ
gather buf zero b whatever = done whatever
gather buf (suc i) b whatever =
    let rest = λ (x : ℕ). gather buf i (b + 1) (bit_or whatever (u64 (x <<< (8 * b)))) in
    if ltb b 8 then read buf (suc i) >>= rest else fault

unfoldable pub get_uint64 : List ℕ → Outcome (DparmReturn ℕ)
get_uint64 buf = do
  t ← read buf 0
  if is_clear t 0x80
      then (if is_clear t 0x40
          then done (returning success (bit_and t 0x3f))
          else done (returning (failed illegal_data) 0))
      else if is_clear t 0x40
      then (if is_clear t 0x10
          then (gather buf (length buf - 1) 0 0 >>= λ v. done (returning success v))
          else done (returning (failed illegal_data) 0))
      else done (returning (failed illegal_data) 0)

-- The narrower getters: a value that does not fit is cut, and the status says 1. `cut` is the cast.
abbrev pub narrow : ℕ → (ℕ → ℕ) → DparmReturn ℕ → DparmReturn ℕ
narrow limit cut r =
    if code_is_ok r.code
    then (if ltb limit r.value
        then returning (record success { drive_status = 1 }) (cut r.value)
        else returning success (cut r.value))
    else returning r.result (cut r.value)

unfoldable pub get_uint32 : List ℕ → Outcome (DparmReturn ℕ)
get_uint32 buf = get_uint64 buf >>= λ r. done (narrow 0xffffffff (λ v. u32 v) r)

unfoldable pub get_uint16 : List ℕ → Outcome (DparmReturn ℕ)
get_uint16 buf = get_uint64 buf >>= λ r. done (narrow 0xffff (λ v. u16 v) r)

unfoldable pub get_uint8 : List ℕ → Outcome (DparmReturn ℕ)
get_uint8 buf = get_uint64 buf >>= λ r. done (narrow 0xff (λ v. u8 v) r)

-- `std::string(buf_.data() + offset, buf_.data() + buf_.size())`; a begin behind the end is no range.
abbrev pub from_offset : List ℕ → ℕ → Outcome (DparmReturn (List ℕ))
from_offset buf offset =
    if leb offset (length buf) then done (returning success (drop offset buf)) else fault

-- `getString`, and `getBytes`, which has the same branches.
unfoldable pub get_string : List ℕ → Outcome (DparmReturn (List ℕ))
get_string buf = do
  t ← read buf 0
  if is_clear t 0x80
      then done (returning (failed illegal_data) [])
      else if is_clear t 0x40
      then from_offset buf 1
      else if is_clear t 0x20
      then from_offset buf 2
      else if is_clear t 0x10
      then from_offset buf 4
      else done (returning (record success { drive_status = 2 }) [])

unfoldable pub get_bytes : List ℕ → Outcome (DparmReturn (List ℕ))
get_bytes buf = do
  t ← read buf 0
  if is_clear t 0x80
      then done (returning (failed illegal_data) [])
      else if is_clear t 0x40
      then from_offset buf 1
      else if is_clear t 0x20
      then from_offset buf 2
      else if is_clear t 0x10
      then from_offset buf 4
      else done (returning (record success { drive_status = 2 }) [])

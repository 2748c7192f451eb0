-- ===== src/Tcg/Types/Status.antt =====
-- src/tcg/tcg_utils.cc: the text of a method status. `none` is the null pointer.
use Prim.Native.String.{String}
use jcu_dparm.Common.{ℕ, Option, none, some, ◌==◌, if◌then◌else◌}

pub tcg_status_to_string : ℕ → Option String
tcg_status_to_string s =
    if s == 0x00
    then some "SUCCESS"
    else if s == 0x01
    then some "NOT_AUTHORIZED"
    else if s == 0x03
    then some "SP_BUSY"
    else if s == 0x04
    then some "SP_FAILED"
    else if s == 0x05
    then some "SP_DISABLED"
    else if s == 0x06
    then some "SP_FROZEN"
    else if s == 0x07
    then some "NO_SESSIONS_AVAILABLE"
    else if s == 0x08
    then some "UNIQUENESS_CONFLICT"
    else if s == 0x09
    then some "INSUFFICIENT_SPACE"
    else if s == 0x0a
    then some "INSUFFICIENT_ROWS"
    else if s == 0x0b
    then some "INVALID_FUNCTION"
    else if s == 0x0c
    then some "INVALID_PARAMETER"
    else if s == 0x0d
    then some "INVALID_REFERENCE"
    else if s == 0x0f
    then some "TPER_MALFUNCTION"
    else if s == 0x10
    then some "TRANSACTION_FAILURE"
    else if s == 0x11
    then some "RESPONSE_OVERFLOW"
    else if s == 0x12
    then some "AUTHORITY_LOCKED_OUT"
    else if s == 0x3f
    then some "FAIL"
    else none

-- ===== src/Tcg/Session.antt =====
-- src/tcg/tcg_session_impl.cc, with `tcgHashPassword` of src/tcg/tcg_intl.cc: a session with a TCG
-- device. A `std::string` is the list of its bytes. Every command here is built by calls whose
-- `bool` the code ignores.
pub mod Calls
pub mod Status
pub mod Ending
pub mod Opening
use jcu_dparm.Common.{ℕ, zero, suc, ◌+◌, ◌-◌, ◌*◌, ◌%◌, ◌^◌, List, [], ◌∷◌, ◌++◌}
use jcu_dparm.Common.{Bool, true, false, not, ◌&&◌, if◌then◌else◌, ◌==◌, Option, none, some}
use jcu_dparm.Common.{length, take, u8, u32, swap32, Outcome, done, fault, stuck, ◌>>=◌}
use jcu_dparm.Err.{DparmResult, DparmReturn, is_ok, failed, success, returning}
use jcu_dparm.Err.{illegal_response, tcg_error_status, tcg_auth_failed}
use jcu_dparm.Tcg.Types
use jcu_dparm.Tcg.Command
use jcu_dparm.Tcg.Command.{Command}
use jcu_dparm.Tcg.Response
use jcu_dparm.Tcg.Response.{Response, host_u32}
use jcu_dparm.Tcg.Token
use jcu_dparm.Tcg.Device.{Handle, Device, exec, get_base_com_id, is_enterprise}

pub record Session : Type 0 where
  pub session_opened : Bool
  pub host_session_num : ℕ
  pub tper_session_num : ℕ
  pub flag_auto_close : Bool
  pub flag_no_hash_password : Bool
  pub timeout : ℕ

abbrev pub new_session : Session
new_session = record {
  session_opened = false;
  host_session_num = 0;
  tper_session_num = 0;
  flag_auto_close = true;
  flag_no_hash_password = false;
  timeout = 60000;
}

abbrev pub is_no_hash_password : Session → Bool
is_no_hash_password s = s.flag_no_hash_password

abbrev pub set_no_hash_password : Bool → Session → Session
set_no_hash_password no_hash s = record s { flag_no_hash_password = no_hash }

abbrev pub dont_auto_close : Session → Session
dont_auto_close s = record s { flag_auto_close = false }

abbrev pub set_timeout : ℕ → Session → Session
set_timeout timeout_ms s = record s { timeout = timeout_ms }

-- A chain of calls on a command, whose results are ignored.
unfoldable pub run : List (Command → Command × Bool) → Command → Command
run [] c = c
run (f ∷ fs) c = run fs (f c).0

unfoldable pub tcg_hash_password : (ℕ → ℕ → List ℕ → List ℕ) → Bool → List ℕ → List ℕ
tcg_hash_password pbkdf2 no_hash_password password =
    let vpassword = take 32 (Command.c_str password) in
    if no_hash_password
    then 0xd0 ∷ (length vpassword ∷ vpassword)
    else (let derived = pbkdf2 75000 32 vpassword in 0xd0 ∷ (u8 (length derived) ∷ derived))

-- The challenge as both `start` and `authenticate` send it.
unfoldable pub challenge_token : (ℕ → ℕ → List ℕ → List ℕ) → Session → List ℕ → List ℕ
challenge_token pbkdf2 s challenge =
    if s.flag_no_hash_password then challenge else tcg_hash_password pbkdf2 false challenge

abbrev pub session_timeout_text : List ℕ
session_timeout_text =
    0x53 ∷ 0x65 ∷ 0x73 ∷ 0x73 ∷ 0x69 ∷ 0x6f ∷ 0x6e ∷ 0x54 ∷ 0x69 ∷ 0x6d ∷ 0x65 ∷ 0x6f ∷ 0x75 ∷ 0x74
    ∷ []

abbrev pub challenge_text : List ℕ
challenge_text = 0x43 ∷ 0x68 ∷ 0x61 ∷ 0x6c ∷ 0x6c ∷ 0x65 ∷ 0x6e ∷ 0x67 ∷ 0x65 ∷ []

abbrev pub is_empty : List ℕ → Bool
is_empty [] = true
is_empty (x ∷ xs) = false

-- The calls of `start` between `reset` and `complete`.
unfoldable pub start_calls :
    (ℕ → ℕ → List ℕ → List ℕ)
    → Bool
    → Session
    → List ℕ
    → List ℕ
    → List ℕ
    → List (Command → Command × Bool)
start_calls pbkdf2 enterprise s sp host_challenge sign_authority =
    let host_session_id : ℕ = 105 in
    (Command.add_token Types.start_list
      ∷ (Command.add_number_token host_session_id
          ∷ (Command.add_uid_token sp ∷ (Command.add_token Types.uint_01 ∷ []))))
    ++ ((if not (is_empty host_challenge) && not enterprise
          then Command.add_token Types.start_name
            ∷ (Command.add_token Types.uint_00
                ∷ (Command.add_string_token (challenge_token pbkdf2 s host_challenge)
                    ∷ (Command.add_token Types.end_name
                        ∷ (Command.add_token Types.start_name
                            ∷ (Command.add_token Types.uint_03
                                ∷ (Command.add_raw_token sign_authority
                                    ∷ (Command.add_token Types.end_name ∷ [])))))))
          else [])
        ++ ((if enterprise
              then Command.add_token Types.start_name
                ∷ (Command.add_string_token session_timeout_text
                    ∷ (Command.add_number_token s.timeout
                        ∷ (Command.add_token Types.end_name ∷ [])))
              else [])
            ++ (Command.add_token Types.end_list ∷ [])))

unfoldable pub start_command :
    (ℕ → ℕ → List ℕ → List ℕ) → Bool → Session → List ℕ → List ℕ → List ℕ → Command
start_command pbkdf2 enterprise s sp host_challenge sign_authority =
    let reset = Command.reset_uid Types.smuid_uid Types.method_startsession Command.empty_command in
    (Command.complete true
      (run (start_calls pbkdf2 enterprise s sp host_challenge sign_authority) reset)).0

-- The calls of `authenticate`; the list it opens is closed by an `ENDNAME`.
unfoldable pub authenticate_calls :
    (ℕ → ℕ → List ℕ → List ℕ) → Bool → Session → List ℕ → List ℕ → List (Command → Command × Bool)
authenticate_calls pbkdf2 enterprise s authority challenge =
    (Command.add_token Types.start_list ∷ (Command.add_raw_token authority ∷ []))
    ++ ((if is_empty challenge
          then []
          else Command.add_token Types.start_name
            ∷ ((if enterprise
                  then Command.add_string_token challenge_text
                  else Command.add_token Types.uint_00)
                ∷ (Command.add_string_token (challenge_token pbkdf2 s challenge)
                    ∷ (Command.add_token Types.end_name ∷ []))))
        ++ (Command.add_token Types.end_name ∷ []))

unfoldable pub authenticate_command :
    (ℕ → ℕ → List ℕ → List ℕ) → Bool → Session → List ℕ → List ℕ → Command
authenticate_command pbkdf2 enterprise s authority challenge =
    let method = if enterprise then Types.method_eauthenticate else Types.method_authenticate in
    let reset = Command.reset_uid Types.thissp_uid method Command.empty_command in
    (Command.complete true
      (run (authenticate_calls pbkdf2 enterprise s authority challenge) reset)).0

abbrev pub close_command : Command
close_command =
    (Command.complete false (Command.add_token Types.end_of_session Command.empty_command).0).0

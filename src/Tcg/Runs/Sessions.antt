-- ===== src/Tcg/Runs/Sessions.antt =====
-- The theorems on devices and sessions at the simulated drive.
use jcu_dparm.Common.{ℕ, List, [], ◌∷◌, true, false, some, ◌≡◌, ◌≢◌, refl}
use jcu_dparm.Common.{done, stuck, swap16, swap32, drop}
use jcu_dparm.Err.{success, failed, returning, not_supported}
use jcu_dparm.Tcg.Types
use jcu_dparm.Tcg.Command.{empty_command}
use jcu_dparm.Tcg.Response.{Response, host_u32}
use jcu_dparm.Tcg.Response.Tiling.{IsTiling}
use jcu_dparm.Tcg.Device.{
  exec, poll, receive, conclude, is_any_ssc, is_outstanding, com_id_field, feature_u16,
  find_feature,
}
use jcu_dparm.Tcg.Response
use jcu_dparm.Tcg.Device.Polling.{exec-ne-stuck, exec-IsComplete}
use jcu_dparm.Tcg.Session.{Session, new_session}
use jcu_dparm.Tcg.Session.Calls.{
  send_command, start, start_uid, close, check_response, payload_missing, method_status,
  read_session_numbers,
}
use jcu_dparm.Tcg.Token
use jcu_dparm.Tcg.Session.Status.{IsAccepted, send_command_ok}
use jcu_dparm.Tcg.Provision.Outcomes.{IsRequested}
use jcu_dparm.Tcg.Session.Opening.{IsNumbered, IsAnswered, start_ok}
use jcu_dparm.Tcg.Provision.{get_default_password, revert_tper, read_password, leave}
use jcu_dparm.Tcg.Provision.Outcomes.{
  get_default_password_ok, revert_tper-not_supported, IsPassword,
}
use jcu_dparm.Tcg.Runs.{World, power_on, answer, drive, opal, enterprise, fresh, drive-IsClock}

abbrev pub sync_tokens : List (List ℕ)
sync_tokens =
    (0xf8 ∷ [])
    ∷ (0xa1 ∷ 0x00 ∷ [])
    ∷ (0xa1 ∷ 0x00 ∷ [])
    ∷ (0xf0 ∷ [])
    ∷ (0x81 ∷ 0x69 ∷ [])
    ∷ (0x82 ∷ 0x10 ∷ 0x01 ∷ [])
    ∷ (0xf1 ∷ [])
    ∷ (0xf9 ∷ [])
    ∷ (0xf0 ∷ [])
    ∷ (0x00 ∷ [])
    ∷ (0x00 ∷ [])
    ∷ (0x00 ∷ [])
    ∷ (0xf1 ∷ [])
    ∷ []

abbrev pub sync_response : Response
sync_response = record { mem = answer 1; tokens = sync_tokens }

abbrev answered : World
answered = record { time = 25000000; commands = 1 }

exec_now :
    exec drive opal empty_command fresh 0x01 power_on ≡ done (success, sync_response, answered)
unfolding exec poll receive conclude is_outstanding is_any_ssc com_id_field feature_u16 find_feature
    Response.reset Response.host_u32 Response.token_length Response.commit_loop Response.commit_from
    Response.commit Response.is_empty_atom swap16 swap32
exec_now = refl

exec-IsComplete_example :
    (is_any_ssc opal ≡ true)
    × (is_outstanding sync_response ≡ done false)
    × ((raw : ℕ) × (host_u32 sync_response.mem 52 ≡ done raw)
        × IsTiling (swap32 raw) (drop 56 sync_response.mem) [] sync_tokens)
exec-IsComplete_example =
    exec-IsComplete drive opal empty_command fresh sync_response 0x01 power_on answered success
      exec_now refl

exec-ne-stuck_example : exec drive opal empty_command fresh 0x01 power_on ≢ stuck
exec-ne-stuck_example = exec-ne-stuck drive opal drive-IsClock empty_command fresh 0x01 power_on

send_command_now :
    send_command drive opal new_session empty_command fresh power_on
    ≡ done (returning success 0, sync_response, answered)
unfolding send_command check_response payload_missing method_status exec poll receive conclude
    is_outstanding is_any_ssc com_id_field feature_u16 find_feature Response.reset Response.host_u32
    Response.token_length Response.commit_loop Response.commit_from Response.commit
    Response.is_empty_atom swap16 swap32 Token.token_type Token.type_of_byte Token.get_uint8
    Token.get_uint64
send_command_now = refl

send_command_ok_example : ◌≡◌ {A = ℕ} 0 0 × IsAccepted sync_response
send_command_ok_example =
    send_command_ok drive opal new_session empty_command fresh sync_response power_on answered
      (returning success 0) send_command_now refl

abbrev opened : Session
opened = record new_session {
  session_opened = true;
  host_session_num = 1761607680;
  tper_session_num = 17825792;
}

start_now :
    start drive opal fresh Types.adminsp_uid [] Types.uid_hexff new_session power_on
    ≡ done (returning success 0, opened, answered)
unfolding start read_session_numbers send_command check_response payload_missing method_status exec
    poll receive conclude is_outstanding is_any_ssc com_id_field feature_u16 find_feature
    Response.reset Response.host_u32 Response.token_length Response.commit_loop Response.commit_from
    Response.commit Response.is_empty_atom swap16 swap32 Token.token_type Token.type_of_byte
    Token.get_uint8 Token.get_uint32 Token.get_uint64 Token.gather
start_now = refl

start_ok_example :
    (true ≡ true)
    × ((r : Response) × (IsAnswered drive opal Types.adminsp_uid [] Types.uid_hexff new_session
            fresh power_on r answered
          × IsAccepted r
          × IsNumbered r opened))
start_ok_example =
    start_ok drive opal fresh Types.adminsp_uid [] Types.uid_hexff new_session opened power_on
      answered (returning success 0) refl start_now refl

close_now :
    close drive opal fresh opened power_on
    ≡ done (record opened { session_opened = false }, answered)
unfolding close send_command check_response payload_missing method_status exec poll receive conclude
    is_outstanding is_any_ssc com_id_field feature_u16 find_feature Response.reset Response.host_u32
    Response.token_length Response.commit_loop Response.commit_from Response.commit
    Response.is_empty_atom swap16 swap32 Token.token_type Token.type_of_byte Token.get_uint8
    Token.get_uint64
close_now = refl

enterprise_com_id : com_id_field 4 enterprise ≡ done 2048
unfolding com_id_field feature_u16 find_feature swap16
enterprise_com_id = refl

enterprise_ssc : is_any_ssc enterprise ≡ false
unfolding is_any_ssc
enterprise_ssc = refl

revert_tper-not_supported_example :
    revert_tper drive enterprise fresh (0x70 ∷ []) true true power_on
    ≡ done (returning (failed not_supported) 0, power_on)
revert_tper-not_supported_example =
    revert_tper-not_supported drive enterprise fresh (0x70 ∷ []) true true power_on 2048 refl
      enterprise_com_id

abbrev left_world : World
left_world = record { time = 75000000; commands = 3 }

get_default_password_now :
    get_default_password drive opal fresh power_on
    ≡ done ((returning success 0, some (0x70 ∷ 0x77 ∷ 0x64 ∷ [])), left_world)
unfolding get_default_password read_password leave start_uid Token.get_string close start
    read_session_numbers send_command check_response payload_missing method_status exec poll receive
    conclude is_outstanding is_any_ssc com_id_field feature_u16 find_feature Response.reset
    Response.host_u32 Response.token_length Response.commit_loop Response.commit_from
    Response.commit Response.is_empty_atom swap16 swap32 Token.token_type Token.type_of_byte
    Token.get_uint8 Token.get_uint32 Token.get_uint64 Token.gather
get_default_password_now = refl

get_default_password_ok_example :
    (r : Response) × IsRequested drive opal fresh power_on r
    × IsAccepted r
    × IsPassword drive opal fresh r (some (0x70 ∷ 0x77 ∷ 0x64 ∷ []))
get_default_password_ok_example =
    get_default_password_ok drive opal fresh power_on left_world (returning success 0)
      (some (0x70 ∷ 0x77 ∷ 0x64 ∷ [])) get_default_password_now refl

-- ===== src/Tcg/Session/Calls.antt =====
-- The methods of `TcgSessionImpl` that talk to the device: `sendCommand`, `close`, `authenticate`
-- and `start`.
use jcu_dparm.Common.{ℕ, ◌+◌, ◌-◌, ◌^◌, List, ◌∷◌}
use jcu_dparm.Common.{Bool, true, false, not, ◌&&◌, ◌||◌, if◌then◌else◌, ◌==◌}
use jcu_dparm.Common.{u32, swap32, Outcome, done, fault, ◌>>=◌, on_pointer}
use jcu_dparm.Err.{DparmResult, DparmReturn, is_ok, failed, success, returning}
use jcu_dparm.Err.{illegal_response, tcg_error_status, tcg_auth_failed}
use jcu_dparm.Tcg.Types
use jcu_dparm.Tcg.Command
use jcu_dparm.Tcg.Command.{Command}
use jcu_dparm.Tcg.Response.{Response, host_u32, get_token, get_token_count}
use jcu_dparm.Tcg.Token
use jcu_dparm.Tcg.Device.{Handle, Device, exec, get_base_com_id, is_enterprise}
use jcu_dparm.Tcg.Session.{Session, start_command, authenticate_command, close_command, is_empty}

-- `unsigned int` arithmetic on the number of tokens.
abbrev pub from_end : Response → ℕ → ℕ
from_end r k = u32 (get_token_count r + 2 ^ 32 - k)

-- One of the three lengths of the header is 0 as it stands in memory.
unfoldable pub payload_missing : Response → Outcome Bool
payload_missing r = do
  cp ← host_u32 r.mem 16
  pkt ← host_u32 r.mem 40
  subpkt ← host_u32 r.mem 52
  done ((cp == 0) || ((pkt == 0) || (subpkt == 0)))

-- `{ DPARME_ILLEGAL_RESPONSE, 0, 0, (OpalStatusCode)0 }`
abbrev pub illegal : DparmReturn ℕ
illegal = returning (failed illegal_response) 0

-- The method status, the fourth token from the end.
unfoldable pub method_status : DparmResult → Response → Outcome (DparmReturn ℕ)
method_status d r = on_pointer (get_token r (from_end r 4)) fault (λ token.
    Token.get_uint8 token >>= λ status.
    if is_ok status.result
    then (if status.value == Types.status_success
        then done (returning d Types.status_success)
        else done (returning (record d { code = tcg_error_status }) status.value))
    else done (returning status.result 0))

-- What `sendCommand` does with the response of a good `exec`.
unfoldable pub check_response : DparmResult → Response → Outcome (DparmReturn ℕ)
check_response d r = do
  missing ← payload_missing r
  if missing
      then done illegal
      else on_pointer (get_token r 0) (done illegal) (λ first. Token.token_type first >>= λ kind.
          if kind == Types.end_of_session
          then done (returning success 0)
          else on_pointer (get_token r (from_end r 1)) (done illegal) (λ token_a.
            on_pointer (get_token r (from_end r 5)) (done illegal) (λ token_b.
              Token.token_type token_a >>= λ type_a. Token.token_type token_b >>= λ type_b.
              if not (type_a == Types.end_list) && (type_b == Types.start_list)
              then done illegal
              else method_status d r)))

module _ {W : Type 0} (handle : Handle W) (device : Device) where
  -- The command is changed in place by the three setters; no caller uses it again.
  unfoldable pub send_command :
      Session → Command → Response → W → Outcome (DparmReturn ℕ × Response × W)
  send_command s cmd r w = do
    com_id ← get_base_com_id device
    let cmd' =
        Command.set_com_id com_id
          (Command.set_tsn s.tper_session_num (Command.set_hsn s.host_session_num cmd))
    (d, r', w') ← exec handle device cmd' r 0x01 w
    if is_ok d
        then (check_response d r' >>= λ v. done (v, r', w'))
        else done (returning d 0, r', w')

  -- `fresh` is the response object of the call, whose buffer is not initialised. The destructor
  -- calls `close`.
  unfoldable pub close : Response → Session → W → Outcome (Session × W)
  close fresh s w =
      if s.flag_auto_close && s.session_opened
      then (let s' = record s { session_opened = false } in
          send_command s' close_command fresh w >>= λ (d, r, w'). done (s', w'))
      else done (s, w)

  -- `authenticate` once its command has been answered.
  unfoldable pub authenticated : DparmReturn ℕ → Response → Outcome (DparmReturn ℕ)
  authenticated d r =
      if not (is_ok d.result) || not (d.value == 0)
      then done d
      else on_pointer (get_token r 1) (done illegal) (λ token. Token.get_uint8 token >>= λ v.
          if is_ok v.result
          then (if v.value == 0
              then done d
              else done (returning (record d.result { code = tcg_auth_failed }) v.value))
          else done (returning v.result 0))

  unfoldable pub authenticate :
      Response → Session → List ℕ → List ℕ → W → Outcome (DparmReturn ℕ × W)
  authenticate fresh s authority challenge w = do
    (d, r, w') ←
        send_command s
          (authenticate_command handle.pbkdf2 (is_enterprise device) s authority challenge) fresh w
    v ← authenticated d r
    done (v, w')

  -- The session numbers of the fifth and the sixth token; a failure keeps what was stored before.
  unfoldable pub read_session_numbers :
      DparmReturn ℕ → Response → Session → Outcome (DparmReturn ℕ × Session)
  read_session_numbers d r s = on_pointer (get_token r 4) (done (illegal, s)) (λ hsn_token.
      on_pointer (get_token r 5) (done (illegal, s)) (λ tsn_token.
        Token.get_uint32 hsn_token >>= λ hsn.
        if is_ok hsn.result
        then (let s' = record s { host_session_num = swap32 hsn.value } in
            Token.get_uint32 tsn_token >>= λ tsn.
            if is_ok tsn.result
            then done (d, record s' { tper_session_num = swap32 tsn.value })
            else done (returning tsn.result 0, s'))
        else done (returning hsn.result 0, s)))

  -- `start` with an encoded authority. The random number is drawn and not used.
  unfoldable pub start :
      Response → List ℕ → List ℕ → List ℕ → Session → W → Outcome (DparmReturn ℕ × Session × W)
  start fresh sp host_challenge sign_authority s w =
      let enterprise = is_enterprise device in
      let w1 = (handle.next_int64 w).1 in
      let cmd = start_command handle.pbkdf2 enterprise s sp host_challenge sign_authority in
      send_command s cmd fresh w1 >>= λ (d, r, w2).
      if not (is_ok d.result) || not (d.value == 0)
      then done (d, s, w2)
      else (read_session_numbers d r (record s { session_opened = true }) >>= λ (v, s').
          if is_ok v.result && (not (is_empty host_challenge) && enterprise)
          then (authenticate fresh s' sign_authority host_challenge w2 >>= λ (u, w3).
              done (u, s', w3))
          else done (v, s', w2))

  -- `start` with a UID: `BYTESTRING8` and its eight bytes.
  unfoldable pub start_uid :
      Response → List ℕ → List ℕ → List ℕ → Session → W → Outcome (DparmReturn ℕ × Session × W)
  start_uid fresh sp host_challenge uid s w =
      start fresh sp host_challenge (Types.bytestring8 ∷ uid) s w

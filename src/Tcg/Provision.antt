-- ===== src/Tcg/Provision.antt =====
-- src/tcg/tcg_device_opal_base.cc and tcg_device_enterprise.cc: reverting the TPer, reading a
-- table, and reading the default password. A local session is closed by its destructor when the
-- method returns; `fresh` is a response object as it is constructed.
pub mod Outcomes
use jcu_dparm.Common.{ℕ, List, [], ◌∷◌, Bool, true, false, not, ◌||◌, if◌then◌else◌, ◌==◌}
use jcu_dparm.Common.{Option, none, some, Outcome, done, fault, stuck, ◌>>=◌, on_pointer}
use jcu_dparm.Common.{◌≡◌, refl, sym, ap, ◌∙◌, arith, inl, inr, >>=-elim, on_pointer-elim, if-cases}
use jcu_dparm.Common.{done-injective}
use jcu_dparm.Err.{DparmResult, DparmReturn, is_ok, failed, success, returning, not_supported}
use jcu_dparm.Tcg.Types
use jcu_dparm.Tcg.Command
use jcu_dparm.Tcg.Command.{Command}
use jcu_dparm.Tcg.Response.{Response, get_token}
use jcu_dparm.Tcg.Token
use jcu_dparm.Tcg.Device.{Handle, Device, is_enterprise, is_any_ssc, get_base_com_id}
use jcu_dparm.Tcg.Session.{Session, new_session, run, dont_auto_close, set_no_hash_password}
use jcu_dparm.Tcg.Session.Calls.{send_command, start_uid, start, close, illegal}
use jcu_dparm.Tcg.Session.Status.{IsAccepted, send_command_ok, start-not_supported}

-- `cmd.reset(…); cmd.addToken(STARTLIST); cmd.addToken(ENDLIST); cmd.complete();`
unfoldable pub revert_command : List ℕ → List ℕ → Command
revert_command uid method =
    let empty_list = Command.add_token Types.start_list ∷ (Command.add_token Types.end_list ∷ []) in
    (Command.complete true (run empty_list (Command.reset_uid uid method Command.empty_command))).0

-- `REVERT` of the admin SP, or `REVERTSP` of this SP.
unfoldable pub enterprise_revert_command : Bool → Command
enterprise_revert_command is_admin_sp =
    if is_admin_sp
    then revert_command Types.adminsp_uid Types.method_revert
    else revert_command Types.thissp_uid Types.method_revertsp

-- The `GET` of both classes: a column is named by the calls that write its name and its value.
unfoldable pub get_command :
    List ℕ → List (Command → Command × Bool) → List (Command → Command × Bool) → Command
get_command table start_column end_column =
    let open_lists =
      Command.add_token Types.start_list ∷ (Command.add_token Types.start_list ∷ []) in
    let close_lists = Command.add_token Types.end_list ∷ (Command.add_token Types.end_list ∷ []) in
    let named = λ (column : List (Command → Command × Bool)) (c : Command).
      run (Command.add_token Types.end_name ∷ [])
        (run column (run (Command.add_token Types.start_name ∷ []) c)) in
    let opened = run open_lists (Command.reset_raw table Types.method_get Command.empty_command) in
    (Command.complete true (run close_lists (named end_column (named start_column opened)))).0

unfoldable pub opal_get_command : List ℕ → ℕ → ℕ → Command
opal_get_command table start_col end_col =
    get_command table
      (Command.add_token Types.start_column ∷ (Command.add_number_token start_col ∷ []))
      (Command.add_token Types.end_column ∷ (Command.add_number_token end_col ∷ []))

abbrev pub start_column_text : List ℕ
start_column_text = 0x73 ∷ 0x74 ∷ 0x61 ∷ 0x72 ∷ 0x74 ∷ 0x43 ∷ 0x6f ∷ 0x6c ∷ 0x75 ∷ 0x6d ∷ 0x6e ∷ []

abbrev pub end_column_text : List ℕ
end_column_text = 0x65 ∷ 0x6e ∷ 0x64 ∷ 0x43 ∷ 0x6f ∷ 0x6c ∷ 0x75 ∷ 0x6d ∷ 0x6e ∷ []

abbrev pub pin_text : List ℕ
pin_text = 0x50 ∷ 0x49 ∷ 0x4e ∷ []

unfoldable pub enterprise_get_command : List ℕ → List ℕ → List ℕ → Command
enterprise_get_command table start_col end_col =
    get_command table
      (Command.add_text_token start_column_text ∷ (Command.add_text_token start_col ∷ []))
      (Command.add_text_token end_column_text ∷ (Command.add_text_token end_col ∷ []))

-- The `GET` of `getDefaultPassword`, for the class of the device.
unfoldable pub password_command : Device → Command
password_command device =
    let table = Types.bytestring8 ∷ Types.c_pin_msid in
    if is_enterprise device
    then enterprise_get_command table pin_text pin_text
    else opal_get_command table Types.credential_pin Types.credential_pin

-- The session and the UID that a revert authenticates with.
abbrev pub revert_session : Bool → Session
revert_session is_psid = if is_psid then set_no_hash_password true new_session else new_session

abbrev pub revert_authority : Bool → List ℕ
revert_authority is_psid = if is_psid then Types.psid_uid else Types.sid_uid

module _ {W : Type 0} (handle : Handle W) (device : Device) (fresh : Response) where
  -- A `return` in the scope of a session.
  unfoldable pub leave : {A : Type 0} → A → Session → W → Outcome (A × W)
  leave a s w = close handle device fresh s w >>= λ (s', w'). done (a, w')

  -- `TcgDeviceOpalBase::revertTPer`.
  unfoldable pub opal_revert_tper : List ℕ → Bool → W → Outcome (DparmReturn ℕ × W)
  opal_revert_tper password is_psid w =
      start_uid handle device fresh Types.adminsp_uid password (revert_authority is_psid)
        (revert_session is_psid) w
      >>= λ (d, s, w1).
          if not (is_ok d.result) || not (d.value == Types.status_success)
          then leave d s w1
          else (send_command handle device s (revert_command Types.adminsp_uid Types.method_revert)
                fresh w1
              >>= λ (v, r, w2). leave v (if is_ok v.result then dont_auto_close s else s) w2)

  -- `TcgDeviceEnterprise::revertTPer`.
  unfoldable pub enterprise_revert_tper : List ℕ → Bool → Bool → W → Outcome (DparmReturn ℕ × W)
  enterprise_revert_tper password is_psid is_admin_sp w =
      start_uid handle device fresh Types.adminsp_uid password (revert_authority is_psid)
        (revert_session is_psid) w
      >>= λ (d, s, w1).
          if is_ok d.result
          then (send_command handle device (dont_auto_close s)
                (enterprise_revert_command is_admin_sp) fresh w1
              >>= λ (v, r, w2). leave v (dont_auto_close s) w2)
          else leave d s w1

  -- `revertTPer`, by the class of the device.
  unfoldable pub revert_tper : List ℕ → Bool → Bool → W → Outcome (DparmReturn ℕ × W)
  revert_tper password is_psid is_admin_sp w = elim device.device_type [
    | Types.TcgDeviceType.generic_device ↦ done (returning (failed not_supported) 0, w)
    | Types.TcgDeviceType.opal_v1_device ↦ opal_revert_tper password is_psid w
    | Types.TcgDeviceType.opal_v2_device ↦ opal_revert_tper password is_psid w
    | Types.TcgDeviceType.opal_enterprise_device ↦
        enterprise_revert_tper password is_psid is_admin_sp w
  ]

  -- The password in a good response to the `GET`: what is returned, and what is stored in
  -- `*out_password`, if anything.
  unfoldable pub read_password :
      DparmReturn ℕ → Response → Outcome (DparmReturn ℕ × Option (List ℕ))
  read_password d r =
      if is_ok d.result
      then on_pointer (get_token r 4) (done (illegal, none)) (λ token.
        Token.get_string token >>= λ password.
        if is_ok password.result
        then done (returning success 0, some password.value)
        else done (returning password.result 0, none))
      else done (d, none)

  -- `getDefaultPassword` of both classes.
  unfoldable pub get_default_password : W → Outcome ((DparmReturn ℕ × Option (List ℕ)) × W)
  get_default_password w =
      start_uid handle device fresh Types.adminsp_uid [] Types.uid_hexff new_session w
      >>= λ (d, s, w1).
          if is_ok d.result
          then (send_command handle device s (password_command device) fresh w1 >>= λ (v, r, w2).
              read_password v r >>= λ out. leave out s w2)
          else leave (d, none) s w1

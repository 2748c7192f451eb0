-- ===== src/Tcg/Provision/Outcomes.antt =====
-- What `revertTPer` and `getDefaultPassword` return, and that they return.
use jcu_dparm.Common.{ℕ, List, [], ◌∷◌, Bool, true, false, not, ◌||◌, ◌==◌}
use jcu_dparm.Common.{Option, none, some, done, stuck, read}
use jcu_dparm.Common.{
  ◌≡◌, ◌≢◌, refl, sym, ap, ◌∙◌, arith, inl, inr, >>=-elim, on_pointer-elim, if-cases, Bool-cases,
}
use jcu_dparm.Common.{
  done-injective, bind-ne-stuck, if-ne-stuck, done-ne-stuck, on_pointer-ne-stuck,
}
use jcu_dparm.Err.{DparmReturn, is_ok, failed, returning, not_supported}
use jcu_dparm.Tcg.Types
use jcu_dparm.Tcg.Response.{Response, get_token}
use jcu_dparm.Tcg.Response.Framing.{read-ne-stuck}
use jcu_dparm.Tcg.Token
use jcu_dparm.Tcg.Device.{Handle, Device, is_any_ssc, get_base_com_id}
use jcu_dparm.Tcg.Device.Polling.{IsClock}
use jcu_dparm.Tcg.Session.{Session, new_session, dont_auto_close}
use jcu_dparm.Tcg.Session.Calls.{send_command, start_uid, close}
use jcu_dparm.Tcg.Session.Status.{IsAccepted, send_command_ok, start-not_supported}
use jcu_dparm.Tcg.Session.Ending.{send_command-ne-stuck, close-ne-stuck, start-ne-stuck}
use jcu_dparm.Tcg.Provision.{leave, read_password, get_default_password, password_command}
use jcu_dparm.Tcg.Provision.{revert_tper, opal_revert_tper, enterprise_revert_tper}
use jcu_dparm.Tcg.Provision.{revert_session, revert_authority}

get_string-ne-stuck : (buf : List ℕ) → Token.get_string buf ≢ stuck
unfolding Token.get_string
get_string-ne-stuck buf = bind-ne-stuck (read buf 0) _ (read-ne-stuck buf 0) (λ t. ground arith)

module _ {W : Type 0} (handle : Handle W) (device : Device) (fresh : Response) where
  -- Leaving the scope of a session does not change what is returned.
  leave-returns :
      {A : Type 0} (a b : A) (s : Session) (w w' : W)
      → leave handle device fresh a s w ≡ done (b, w')
      → a ≡ b
  unfolding leave
  leave-returns a b s w w' e =
      >>=-elim (close handle device fresh s w) _ e
        (λ x closed same. ap (λ y. y.0) (done-injective same))

  -- The string of the fifth token.
  abbrev pub IsPassword : Response → Option (List ℕ) → Type 0
  IsPassword r out =
      (token : List ℕ) × (get_token r 4 ≡ some token)
      × ((password : DparmReturn (List ℕ)) × (Token.get_string token ≡ done password)
          × (out ≡ some password.value))

  read_password_ok :
      (d v : DparmReturn ℕ) (r : Response) (out : Option (List ℕ))
      → read_password handle device fresh d r ≡ done (v, out)
      → is_ok v.result ≡ true
      → (is_ok d.result ≡ true) × IsPassword r out
  unfolding read_password
  read_password_ok d v r out e ok = elim (if-cases (is_ok d.result) _ _ _ e) [
    | inl (good, more) ↦
        on_pointer-elim (get_token r 4) _ _ more (λ m1 m2. absurd (ground arith))
          (λ token here rest. >>=-elim (Token.get_string token) _ rest (λ password got tested.
            elim (if-cases (is_ok password.result) _ _ _ tested) [
              | inl (fine, same) ↦
                  (good, (token, here, (password, got, sym (ap (λ y. y.1) (done-injective same)))))
              | inr (bad, same) ↦ absurd (ground arith)
            ]))
    | inr (bad, same) ↦ absurd (ground arith)
  ]

  -- `r` is the response to the request for the password, in the session that was opened for it.
  abbrev pub IsRequested : W → Response → Type 0
  IsRequested w r =
      (x : DparmReturn ℕ × Session × W) × (start_uid handle device fresh Types.adminsp_uid []
          Types.uid_hexff new_session w
        ≡ done x)
      × (is_ok x.0.result ≡ true)
      × ((y : DparmReturn ℕ × W) × (send_command handle device x.1 (password_command device) fresh
              x.2
            ≡ done (y.0, r, y.1)))

  -- Where the result of `getDefaultPassword` is ok, the session was opened, and the password that it
  -- stores is the string in the fifth token of the response to the request for it in that session,
  -- which was accepted.
  pub get_default_password_ok :
      (w w' : W) (v : DparmReturn ℕ) (out : Option (List ℕ))
      → get_default_password handle device fresh w ≡ done ((v, out), w')
      → is_ok v.result ≡ true
      → (r : Response) × IsRequested w r × IsAccepted r × IsPassword r out
  unfolding get_default_password
  get_default_password_ok w w' v out e ok =
      >>=-elim (start_uid handle device fresh Types.adminsp_uid [] Types.uid_hexff new_session w) _
        e
        (λ x started tested. elim (if-cases (is_ok x.0.result) _ _ _ tested) [
          | inl (good, more) ↦
              >>=-elim (send_command handle device x.1 (password_command device) fresh x.2) _ more
                (λ y sent rest.
                  >>=-elim (read_password handle device fresh y.0 y.1) _ rest (λ z read left.
                    let same = leave-returns z (v, out) x.1 y.2 w' left in
                    let here = read_password_ok y.0 v y.1 out (read ∙ ap done same) ok in
                    (
                      y.1,
                      (x, started, good, ((y.0, y.2), sent)),
                      (send_command_ok handle device x.1 _ fresh y.1 x.2 y.2 y.0 sent here.0).1,
                      here.1,
                    )))
          | inr (bad, left) ↦
              absurd (ground (arith, leave-returns (x.0, none) (v, out) x.1 x.2 w' left))
        ])

  revert_tper-class :
      (password : List ℕ) (is_psid is_admin_sp : Bool) (w : W)
      → device.device_type ≡ Types.TcgDeviceType.opal_enterprise_device
      → revert_tper handle device fresh password is_psid is_admin_sp w
        ≡ enterprise_revert_tper handle device fresh password is_psid is_admin_sp w
  unfolding revert_tper
  revert_tper-class password is_psid is_admin_sp w class = rw class

  -- A session that is not open is left without a command.
  leave-shut :
      {A : Type 0} (a : A) (s : Session) (w : W)
      → s.session_opened ≡ false
      → leave handle device fresh a s w ≡ done (a, w)
  unfolding leave close
  leave-shut a s w shut = elim (Bool-cases s.flag_auto_close) [
    | inl auto ↦ simp (auto, shut) refl
    | inr kept ↦ simp kept refl
  ]

  revert_session-shut : (is_psid : Bool) → (revert_session is_psid).session_opened ≡ false
  revert_session-shut true = refl
  revert_session-shut false = refl

  -- A device of the Enterprise class whose base com id can be read is never reverted: whatever the
  -- password and the authority, the result is `DPARME_NOT_SUPPORTED`, and no command is sent.
  pub revert_tper-not_supported :
      (password : List ℕ) (is_psid is_admin_sp : Bool) (w : W) (com_id : ℕ)
      → device.device_type ≡ Types.TcgDeviceType.opal_enterprise_device
      → get_base_com_id device ≡ done com_id
      → revert_tper handle device fresh password is_psid is_admin_sp w
        ≡ done (returning (failed not_supported) 0, (handle.next_int64 w).1)
  unfolding enterprise_revert_tper start_uid is_any_ssc
  revert_tper-not_supported password is_psid is_admin_sp w com_id class here =
      let plain : is_any_ssc device ≡ false = rw class in
      let started =
        start-not_supported handle device fresh Types.adminsp_uid password
          (Types.bytestring8 ∷ revert_authority is_psid) (revert_session is_psid) w com_id plain
          here in
      revert_tper-class password is_psid is_admin_sp w class
      ∙ simp started (leave-shut _ (revert_session is_psid) _ (revert_session-shut is_psid))

  module _ (clock : IsClock handle) where
    leave-ne-stuck :
        {A : Type 0} (a : A) (s : Session) (w : W) → leave handle device fresh a s w ≢ stuck
    unfolding leave
    leave-ne-stuck a s w =
        bind-ne-stuck (close handle device fresh s w) _
          (close-ne-stuck handle device clock fresh s w) (λ x. done-ne-stuck _)

    start_uid-ne-stuck :
        (sp challenge uid : List ℕ) (s : Session) (w : W)
        → start_uid handle device fresh sp challenge uid s w ≢ stuck
    unfolding start_uid
    start_uid-ne-stuck sp challenge uid s w =
        start-ne-stuck handle device clock fresh sp challenge (Types.bytestring8 ∷ uid) s w

    -- With a steady clock, reading the default password ends, its destructors included.
    pub get_default_password-ne-stuck : (w : W) → get_default_password handle device fresh w ≢ stuck
    unfolding get_default_password read_password
    get_default_password-ne-stuck w =
        bind-ne-stuck
          (start_uid handle device fresh Types.adminsp_uid [] Types.uid_hexff new_session w) _
          (start_uid-ne-stuck _ _ _ _ _)
          (λ x.
            if-ne-stuck (is_ok x.0.result) _ _
              (λ good.
                bind-ne-stuck (send_command handle device x.1 (password_command device) fresh x.2) _
                  (send_command-ne-stuck handle device clock _ _ fresh _)
                  (λ y.
                    bind-ne-stuck (read_password handle device fresh y.0 y.1) _
                      (if-ne-stuck (is_ok y.0.result) _ _
                        (λ ok. on_pointer-ne-stuck (get_token y.1 4) _ _ (done-ne-stuck _) (λ token.
                          bind-ne-stuck (Token.get_string token) _ (get_string-ne-stuck token) (λ p.
                            if-ne-stuck (is_ok p.result) _ _ (λ o. done-ne-stuck _)
                              (λ n. done-ne-stuck _))))
                        (λ n. done-ne-stuck _))
                      (λ z. leave-ne-stuck z x.1 y.2)))
              (λ bad. leave-ne-stuck _ x.1 x.2))

    opal_revert_tper-ne-stuck :
        (password : List ℕ) (is_psid : Bool) (w : W)
        → opal_revert_tper handle device fresh password is_psid w ≢ stuck
    unfolding opal_revert_tper
    opal_revert_tper-ne-stuck password is_psid w =
        bind-ne-stuck (start_uid handle device fresh _ password _ _ w) _
          (start_uid-ne-stuck _ _ _ _ _)
          (λ x.
            if-ne-stuck (not (is_ok x.0.result) || not (x.0.value == Types.status_success)) _ _
              (λ bad. leave-ne-stuck _ x.1 x.2)
              (λ good.
                bind-ne-stuck (send_command handle device x.1 _ fresh x.2) _
                  (send_command-ne-stuck handle device clock _ _ fresh _)
                  (λ y. leave-ne-stuck _ _ y.2)))

    enterprise_revert_tper-ne-stuck :
        (password : List ℕ) (is_psid is_admin_sp : Bool) (w : W)
        → enterprise_revert_tper handle device fresh password is_psid is_admin_sp w ≢ stuck
    unfolding enterprise_revert_tper
    enterprise_revert_tper-ne-stuck password is_psid is_admin_sp w =
        bind-ne-stuck (start_uid handle device fresh _ password _ _ w) _
          (start_uid-ne-stuck _ _ _ _ _)
          (λ x.
            if-ne-stuck (is_ok x.0.result) _ _
              (λ good.
                bind-ne-stuck (send_command handle device (dont_auto_close x.1) _ fresh x.2) _
                  (send_command-ne-stuck handle device clock _ _ fresh _)
                  (λ y. leave-ne-stuck _ _ y.2))
              (λ bad. leave-ne-stuck _ x.1 x.2))

    -- With a steady clock, a revert ends for every class of device.
    pub revert_tper-ne-stuck :
        (password : List ℕ) (is_psid is_admin_sp : Bool) (w : W)
        → revert_tper handle device fresh password is_psid is_admin_sp w ≢ stuck
    unfolding revert_tper
    revert_tper-ne-stuck password is_psid is_admin_sp w = ground (
      arith,
      opal_revert_tper-ne-stuck password is_psid w,
      enterprise_revert_tper-ne-stuck password is_psid is_admin_sp w,
    )

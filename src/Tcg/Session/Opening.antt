-- ===== src/Tcg/Session/Opening.antt =====
-- A session that `start` opens: where its two numbers come from.
use mathlib.Core.Path.{subst}
use jcu_dparm.Common.{ℕ, ◌≡◌, inl, inr, sym, ap, ◌∙◌, arith, List, swap32, if-cases}
use jcu_dparm.Common.{true, false, not, ◌&&◌, ◌||◌, ◌==◌, some}
use jcu_dparm.Common.{done, done-injective, >>=-elim, on_pointer-elim}
use jcu_dparm.Err.{DparmReturn, is_ok}
use jcu_dparm.Tcg.Response.{Response, get_token}
use jcu_dparm.Tcg.Token
use jcu_dparm.Tcg.Device.{Handle, Device, is_enterprise}
use jcu_dparm.Tcg.Session.{Session, is_empty, start_command}
use jcu_dparm.Tcg.Session.Calls.{send_command, start, read_session_numbers}
use jcu_dparm.Tcg.Session.Status.{IsAccepted, send_command_ok}

-- The session `s` carries the numbers of the response's fifth and sixth token, byte-swapped.
pub record IsNumbered (r : Response) (s : Session) : Type 0 where
  pub hsn_token : List ℕ
  pub tsn_token : List ℕ
  pub hsn : DparmReturn ℕ
  pub tsn : DparmReturn ℕ
  pub hsn_here : get_token r 4 ≡ some hsn_token
  pub tsn_here : get_token r 5 ≡ some tsn_token
  pub hsn_read : Token.get_uint32 hsn_token ≡ done hsn
  pub tsn_read : Token.get_uint32 tsn_token ≡ done tsn
  pub host : s.host_session_num ≡ swap32 hsn.value
  pub tper : s.tper_session_num ≡ swap32 tsn.value

module _ {W : Type 0} (handle : Handle W) (device : Device) where
  read_session_numbers_ok :
      (d v : DparmReturn ℕ) (r : Response) (s s' : Session)
      → read_session_numbers handle device d r s ≡ done (v, s')
      → is_ok v.result ≡ true
      → IsNumbered r s' × (s'.session_opened ≡ s.session_opened)
  unfolding read_session_numbers
  read_session_numbers_ok d v r s s' e ok =
      on_pointer-elim (get_token r 4) _ _ e (λ m1 m2. absurd (ground arith))
        (λ a here_a rest_a.
          on_pointer-elim (get_token r 5) _ _ rest_a (λ m1 m2. absurd (ground arith))
            (λ b here_b rest_b. >>=-elim (Token.get_uint32 a) _ rest_b (λ hsn read_a tested.
              elim (if-cases (is_ok hsn.result) _ _ _ tested) [
                | inl (good, more) ↦ >>=-elim (Token.get_uint32 b) _ more (λ tsn read_b tested'.
                    elim (if-cases (is_ok tsn.result) _ _ _ tested') [
                      | inl (good', same) ↦
                          let end = sym (ap (λ x. x.1) (done-injective same)) in
                          (
                            record {
                              hsn_token = a;
                              tsn_token = b;
                              hsn = hsn;
                              tsn = tsn;
                              hsn_here = here_a;
                              tsn_here = here_b;
                              hsn_read = read_a;
                              tsn_read = read_b;
                              host = ap (λ x. x.host_session_num) end;
                              tper = ap (λ x. x.tper_session_num) end;
                            },
                            ap (λ x. x.session_opened) end,
                          )
                      | inr (bad, same) ↦ absurd (ground arith)
                    ])
                | inr (bad, same) ↦ absurd (ground arith)
              ])))

  -- `r` is the response to the command that `start` sends, and `w'` the world behind it.
  abbrev pub IsAnswered : List ℕ → List ℕ → List ℕ → Session → Response → W → Response → W → Type 0
  IsAnswered sp host_challenge sign_authority s fresh w r w' =
      (d : DparmReturn ℕ) × (send_command handle device s
          (start_command handle.pbkdf2 (is_enterprise device) s sp host_challenge sign_authority)
          fresh (handle.next_int64 w).1
        ≡ done (d, r, w'))

  -- A `start` whose result is ok, on a device of another class than Enterprise, has opened the
  -- session, and the session's numbers are those of the fifth and the sixth token, byte-swapped, of
  -- the response to its command, which was accepted. It is the only command that was sent.
  pub start_ok :
      (fresh : Response) (sp host_challenge sign_authority : List ℕ) (s s' : Session) (w w' : W)
      (v : DparmReturn ℕ)
      → is_enterprise device ≡ false
      → start handle device fresh sp host_challenge sign_authority s w ≡ done (v, s', w')
      → is_ok v.result ≡ true
      → (s'.session_opened ≡ true)
        × ((r : Response) × (IsAnswered sp host_challenge sign_authority s fresh w r w'
              × IsAccepted r
              × IsNumbered r s'))
  unfolding start
  start_ok fresh sp host_challenge sign_authority s s' w w' v plain e ok =
      >>=-elim (send_command handle device s _ fresh _) _ e (λ x sent rest.
        elim (if-cases (not (is_ok x.0.result) || not (x.0.value == 0)) _ _ _ rest) [
          | inl (failed, same) ↦
              let x_ok : is_ok x.0.result ≡ true =
                ap (λ y. is_ok y.0.result) (done-injective same) ∙ ok in
              let zero = (send_command_ok handle device s _ fresh x.1 _ x.2 x.0 sent x_ok).0 in
              absurd (ground (arith, x_ok, zero))
          | inr (good, more) ↦
              >>=-elim
                (read_session_numbers handle device x.0 x.1 (record s { session_opened = true })) _
                more
                (λ y read last.
                  let x_ok : is_ok x.0.result ≡ true = ground arith in
                  let accepted =
                    (send_command_ok handle device s _ fresh x.1 _ x.2 x.0 sent x_ok).1 in
                  elim (if-cases
                    (is_ok y.0.result && (not (is_empty host_challenge) && is_enterprise device)) _
                    _ _ last) [
                      | inl (both, m) ↦ absurd (ground (arith, both, plain))
                      | inr (n, same) ↦
                          let end = done-injective same in
                          let y_ok : is_ok y.0.result ≡ true =
                            ap (λ z. is_ok z.0.result) end ∙ ok in
                          let here = read_session_numbers_ok x.0 y.0 x.1 _ y.1 read y_ok in
                          subst
                            (λ t.
                              (t.session_opened ≡ true)
                              × ((r : Response) × (IsAnswered sp host_challenge sign_authority s
                                      fresh w r w'
                                    × IsAccepted r
                                    × IsNumbered r t)))
                            (ap (λ z. z.1) end)
                            (
                              here.1,
                              (
                                x.1,
                                (
                                  (x.0, sent ∙ ap (λ t. done (x.0, x.1, t)) (ap (λ z. z.2) end)),
                                  accepted,
                                  here.0,
                                ),
                              ),
                            )
                    ])
        ])

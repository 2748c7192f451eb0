-- ===== src/Tcg/Session/Status.antt =====
-- What the results of `sendCommand`, `start` and `close` mean.
use jcu_dparm.Common.{ℕ, ◌≡◌, ◌⊎◌, inl, inr, refl, sym, ap, ◌∙◌, arith, List}
use jcu_dparm.Common.{true, false, not, ◌&&◌, ◌==◌, if-cases, some}
use jcu_dparm.Common.{done, done-injective, >>=-elim, on_pointer-elim, ==_iff}
use mathlib.Core.Path.{subst}
use jcu_dparm.Err.{DparmResult, DparmReturn, is_ok, failed, returning, not_supported}
use jcu_dparm.Tcg.Types
use jcu_dparm.Tcg.Command.{Command}
use jcu_dparm.Tcg.Response.{Response, get_token}
use jcu_dparm.Tcg.Token
use jcu_dparm.Tcg.Device.{Handle, Device, exec, get_base_com_id, is_any_ssc}
use jcu_dparm.Tcg.Session.{Session, close_command}
use jcu_dparm.Tcg.Session.Calls.{from_end, payload_missing, method_status, check_response}
use jcu_dparm.Tcg.Session.Calls.{send_command, close, start}

-- Where a good result comes from: the session ended, or the status token says 0.
unfoldable pub IsAccepted : Response → Type 0
IsAccepted r =
    ((first : List ℕ) × (get_token r 0 ≡ some first)
      × (Token.token_type first ≡ done Types.end_of_session))
    ⊎ ((token : List ℕ) × (get_token r (from_end r 4) ≡ some token)
        × ((status : DparmReturn ℕ) × (Token.get_uint8 token ≡ done status)
            × (is_ok status.result ≡ true)
            × (status.value ≡ 0)))

method_status_ok :
    (d : DparmResult) (r : Response) (v : DparmReturn ℕ)
    → method_status d r ≡ done v
    → is_ok v.result ≡ true
    → (v.value ≡ 0) × IsAccepted r
unfolding method_status IsAccepted
method_status_ok d r v e ok =
    on_pointer-elim (get_token r (from_end r 4)) _ _ e (λ missing m. absurd (ground arith))
      (λ token here read. >>=-elim (Token.get_uint8 token) _ read (λ status got tested.
        elim (if-cases (is_ok status.result) _ _ _ tested) [
          | inl (good, more) ↦ elim (if-cases (status.value == 0) _ _ _ more) [
            | inl (is_zero, same) ↦ (
              ap (λ x. x.value) (sym (done-injective same)),
              inr (token, here, (status, got, good, (==_iff status.value 0).0 is_zero)),
            )
            | inr (other, same) ↦ absurd (ground arith)
          ]
          | inr (bad, same) ↦ absurd (ground arith)
        ]))

check_response_ok :
    (d : DparmResult) (r : Response) (v : DparmReturn ℕ)
    → check_response d r ≡ done v
    → is_ok v.result ≡ true
    → (v.value ≡ 0) × IsAccepted r
unfolding check_response IsAccepted
check_response_ok d r v e ok = >>=-elim (payload_missing r) _ e (λ missing looked tested.
    elim (if-cases missing _ _ _ tested) [
      | inl (absent, same) ↦ absurd (ground arith)
      | inr (there, more) ↦
          on_pointer-elim (get_token r 0) _ _ more (λ m1 m2. absurd (ground arith))
            (λ first here read. >>=-elim (Token.token_type first) _ read (λ kind typed tested'.
              elim (if-cases (kind == Types.end_of_session) _ _ _ tested') [
                | inl (ended, same) ↦ (
                  ap (λ x. x.value) (sym (done-injective same)),
                  inl (first, here, typed ∙ ap done ((==_iff kind Types.end_of_session).0 ended)),
                )
                | inr (other, rest) ↦
                    on_pointer-elim (get_token r (from_end r 1)) _ _ rest
                      (λ m1 m2. absurd (ground arith))
                      (λ token_a here_a rest_a.
                        on_pointer-elim (get_token r (from_end r 5)) _ _ rest_a
                          (λ m1 m2. absurd (ground arith))
                          (λ token_b here_b rest_b.
                            >>=-elim (Token.token_type token_a) _ rest_b (λ type_a typed_a rest_c.
                              >>=-elim (Token.token_type token_b) _ rest_c (λ type_b typed_b rest_d.
                                elim (if-cases
                                  (not (type_a == Types.end_list) && (type_b == Types.start_list)) _
                                  _ _ rest_d) [
                                    | inl (wrong, same) ↦ absurd (ground arith)
                                    | inr (right, last) ↦ method_status_ok d r v last ok
                                  ]))))
              ]))
    ])

module _ {W : Type 0} (handle : Handle W) (device : Device) where
  -- A `sendCommand` whose result is ok has the value 0, and the response shows why: its first token
  -- ends the session, or its fourth token from the end holds the number 0.
  pub send_command_ok :
      (s : Session) (cmd : Command) (r r' : Response) (w w' : W) (v : DparmReturn ℕ)
      → send_command handle device s cmd r w ≡ done (v, r', w')
      → is_ok v.result ≡ true
      → (v.value ≡ 0) × IsAccepted r'
  unfolding send_command
  send_command_ok s cmd r r' w w' v e ok =
      >>=-elim (get_base_com_id device) _ e (λ com_id named more.
        >>=-elim (exec handle device _ r 0x01 w) _ more (λ x ran rest.
          elim (if-cases (is_ok x.0) _ _ _ rest) [
            | inl (good, last) ↦ >>=-elim (check_response x.0 x.1) _ last (λ u checked same.
                let same' = done-injective same in
                subst (λ y. (y.0.value ≡ 0) × IsAccepted y.1) same'
                  (check_response_ok x.0 x.1 u checked (ap (λ y. is_ok y.0.result) same' ∙ ok)))
            | inr (bad, same) ↦ absurd (ground arith)
          ]))

  -- Once `close` has returned, a second `close` changes nothing and sends nothing.
  pub close-close :
      (fresh fresh' : Response) (s s' : Session) (w w' : W)
      → close handle device fresh s w ≡ done (s', w')
      → close handle device fresh' s' w' ≡ done (s', w')
  unfolding close
  close-close fresh fresh' s s' w w' e =
      elim (if-cases (s.flag_auto_close && s.session_opened) _ _ _ e) [
        | inl (opened, more) ↦
            >>=-elim (send_command handle device _ close_command fresh w) _ more
              (λ x sent same. ground arith)
        | inr (shut, same) ↦ ground arith
      ]

  -- On a device that is no Opal device, and whose base com id can be read, `start` returns
  -- `DPARME_NOT_SUPPORTED`, leaves the session as it was, and sends no command.
  pub start-not_supported :
      (fresh : Response) (sp host_challenge sign_authority : List ℕ) (s : Session) (w : W)
      (com_id : ℕ)
      → is_any_ssc device ≡ false
      → get_base_com_id device ≡ done com_id
      → start handle device fresh sp host_challenge sign_authority s w
        ≡ done (returning (failed not_supported) 0, s, (handle.next_int64 w).1)
  unfolding start send_command exec
  start-not_supported fresh sp host_challenge sign_authority s w com_id plain here =
      simp (here, plain) refl

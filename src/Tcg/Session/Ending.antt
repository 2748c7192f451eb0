-- ===== src/Tcg/Session/Ending.antt =====
-- Every call of a session ends: with a steady clock none of them gets stuck.
use jcu_dparm.Common.{ℕ, zero, suc, ◌+◌, ◌-◌, ◌≡◌, ◌≢◌, List, true}
use jcu_dparm.Common.{Outcome, fault, stuck, read, length, ltb}
use jcu_dparm.Common.{bind-ne-stuck, if-ne-stuck, done-ne-stuck, on_pointer-ne-stuck}
use jcu_dparm.Common.{not, ◌&&◌, ◌||◌, ◌==◌}
use jcu_dparm.Err.{DparmResult, DparmReturn, is_ok}
use jcu_dparm.Tcg.Types
use jcu_dparm.Tcg.Command.{Command}
use jcu_dparm.Tcg.Response.{Response, host_u32, get_token}
use jcu_dparm.Tcg.Response.Framing.{read-ne-stuck, host_u32-ne-stuck}
use jcu_dparm.Tcg.Token
use jcu_dparm.Tcg.Device.{Handle, Device, exec, get_base_com_id, is_enterprise}
use jcu_dparm.Tcg.Device.Polling.{IsClock, exec-ne-stuck, com_id_field-ne-stuck}
use jcu_dparm.Tcg.Session.{Session, close_command, is_empty}
use jcu_dparm.Tcg.Session.Calls.{from_end, payload_missing, method_status, check_response}
use jcu_dparm.Tcg.Session.Calls.{send_command, close, start, read_session_numbers, authenticate}
use jcu_dparm.Tcg.Session.Calls.{authenticated}

fault-ne-stuck {ℓ} : {A : Type ℓ} → ¬ (◌≡◌ {A = Outcome A} fault stuck)
fault-ne-stuck e = cc

gather-ne-stuck : (buf : List ℕ) (i b v : ℕ) → Token.gather buf i b v ≢ stuck
unfolding Token.gather
gather-ne-stuck buf zero b v = done-ne-stuck v
gather-ne-stuck buf (suc i) b v =
    if-ne-stuck (ltb b 8) _ _
      (λ h.
        bind-ne-stuck (read buf (suc i)) _ (read-ne-stuck buf (suc i))
          (λ x. gather-ne-stuck buf i (b + 1) _))
      (λ h. fault-ne-stuck)

get_uint64-ne-stuck : (buf : List ℕ) → Token.get_uint64 buf ≢ stuck
unfolding Token.get_uint64
get_uint64-ne-stuck buf = bind-ne-stuck (read buf 0) _ (read-ne-stuck buf 0) (λ t.
    if-ne-stuck (Token.is_clear t 0x80) _ _
      (λ tiny.
        if-ne-stuck (Token.is_clear t 0x40) _ _ (λ u. done-ne-stuck _) (λ n. done-ne-stuck _))
      (λ large.
        if-ne-stuck (Token.is_clear t 0x40) _ _
          (λ short.
            if-ne-stuck (Token.is_clear t 0x10) _ _
              (λ u.
                bind-ne-stuck (Token.gather buf (length buf - 1) 0 0) _
                  (gather-ne-stuck buf (length buf - 1) 0 0) (λ v. done-ne-stuck _))
              (λ n. done-ne-stuck _))
          (λ other. done-ne-stuck _)))

get_uint8-ne-stuck : (buf : List ℕ) → Token.get_uint8 buf ≢ stuck
unfolding Token.get_uint8
get_uint8-ne-stuck buf =
    bind-ne-stuck (Token.get_uint64 buf) _ (get_uint64-ne-stuck buf) (λ r. done-ne-stuck _)

get_uint32-ne-stuck : (buf : List ℕ) → Token.get_uint32 buf ≢ stuck
unfolding Token.get_uint32
get_uint32-ne-stuck buf =
    bind-ne-stuck (Token.get_uint64 buf) _ (get_uint64-ne-stuck buf) (λ r. done-ne-stuck _)

token_type-ne-stuck : (buf : List ℕ) → Token.token_type buf ≢ stuck
unfolding Token.token_type
token_type-ne-stuck buf = bind-ne-stuck (read buf 0) _ (read-ne-stuck buf 0) (λ t. done-ne-stuck _)

payload_missing-ne-stuck : (r : Response) → payload_missing r ≢ stuck
unfolding payload_missing
payload_missing-ne-stuck r = bind-ne-stuck (host_u32 r.mem 16) _ (host_u32-ne-stuck r.mem 16) (λ a.
    bind-ne-stuck (host_u32 r.mem 40) _ (host_u32-ne-stuck r.mem 40) (λ b.
      bind-ne-stuck (host_u32 r.mem 52) _ (host_u32-ne-stuck r.mem 52) (λ c. done-ne-stuck _)))

method_status-ne-stuck : (d : DparmResult) (r : Response) → method_status d r ≢ stuck
unfolding method_status
method_status-ne-stuck d r =
    on_pointer-ne-stuck (get_token r (from_end r 4)) _ _ fault-ne-stuck (λ token.
      bind-ne-stuck (Token.get_uint8 token) _ (get_uint8-ne-stuck token) (λ v.
        if-ne-stuck (is_ok v.result) _ _
          (λ good. if-ne-stuck (v.value == 0) _ _ (λ z. done-ne-stuck _) (λ n. done-ne-stuck _))
          (λ bad. done-ne-stuck _)))

check_response-ne-stuck : (d : DparmResult) (r : Response) → check_response d r ≢ stuck
unfolding check_response
check_response-ne-stuck d r = bind-ne-stuck (payload_missing r) _ (payload_missing-ne-stuck r) (λ m.
    if-ne-stuck m _ _ (λ absent. done-ne-stuck _)
      (λ here. on_pointer-ne-stuck (get_token r 0) _ _ (done-ne-stuck _) (λ first.
        bind-ne-stuck (Token.token_type first) _ (token_type-ne-stuck first) (λ kind.
          if-ne-stuck (kind == Types.end_of_session) _ _ (λ ended. done-ne-stuck _)
            (λ other.
              on_pointer-ne-stuck (get_token r (from_end r 1)) _ _ (done-ne-stuck _) (λ token_a.
                on_pointer-ne-stuck (get_token r (from_end r 5)) _ _ (done-ne-stuck _) (λ token_b.
                  bind-ne-stuck (Token.token_type token_a) _ (token_type-ne-stuck token_a) (λ a.
                    bind-ne-stuck (Token.token_type token_b) _ (token_type-ne-stuck token_b) (λ b.
                      if-ne-stuck (not (a == Types.end_list) && (b == Types.start_list)) _ _
                        (λ wrong. done-ne-stuck _) (λ right. method_status-ne-stuck d r))))))))))

module _ {W : Type 0} (handle : Handle W) (device : Device) (clock : IsClock handle) where
  pub send_command-ne-stuck :
      (s : Session) (cmd : Command) (r : Response) (w : W)
      → send_command handle device s cmd r w ≢ stuck
  unfolding send_command
  send_command-ne-stuck s cmd r w =
      bind-ne-stuck (get_base_com_id device) _ (com_id_field-ne-stuck 4 device) (λ com_id.
        bind-ne-stuck (exec handle device _ r 0x01 w) _
          (exec-ne-stuck handle device clock _ r 0x01 w)
          (λ x.
            if-ne-stuck (is_ok x.0) _ _
              (λ good.
                bind-ne-stuck (check_response x.0 x.1) _ (check_response-ne-stuck x.0 x.1)
                  (λ v. done-ne-stuck _))
              (λ bad. done-ne-stuck _)))

  pub close-ne-stuck :
      (fresh : Response) (s : Session) (w : W) → close handle device fresh s w ≢ stuck
  unfolding close
  close-ne-stuck fresh s w =
      if-ne-stuck (s.flag_auto_close && s.session_opened) _ _
        (λ opened.
          bind-ne-stuck (send_command handle device _ close_command fresh w) _
            (send_command-ne-stuck _ close_command fresh w) (λ x. done-ne-stuck _))
        (λ shut. done-ne-stuck _)

  authenticated-ne-stuck :
      (d : DparmReturn ℕ) (r : Response) → authenticated handle device d r ≢ stuck
  unfolding authenticated
  authenticated-ne-stuck d r =
      if-ne-stuck (not (is_ok d.result) || not (d.value == 0)) _ _ (λ failed. done-ne-stuck _)
        (λ good. on_pointer-ne-stuck (get_token r 1) _ _ (done-ne-stuck _) (λ token.
          bind-ne-stuck (Token.get_uint8 token) _ (get_uint8-ne-stuck token) (λ v.
            if-ne-stuck (is_ok v.result) _ _
              (λ read. if-ne-stuck (v.value == 0) _ _ (λ z. done-ne-stuck _) (λ n. done-ne-stuck _))
              (λ bad. done-ne-stuck _))))

  authenticate-ne-stuck :
      (fresh : Response) (s : Session) (authority challenge : List ℕ) (w : W)
      → authenticate handle device fresh s authority challenge w ≢ stuck
  unfolding authenticate
  authenticate-ne-stuck fresh s authority challenge w =
      bind-ne-stuck (send_command handle device s _ fresh w) _ (send_command-ne-stuck s _ fresh w)
        (λ x.
          bind-ne-stuck (authenticated handle device x.0 x.1) _ (authenticated-ne-stuck x.0 x.1)
            (λ v. done-ne-stuck _))

  read_session_numbers-ne-stuck :
      (d : DparmReturn ℕ) (r : Response) (s : Session)
      → read_session_numbers handle device d r s ≢ stuck
  unfolding read_session_numbers
  read_session_numbers-ne-stuck d r s =
      on_pointer-ne-stuck (get_token r 4) _ _ (done-ne-stuck _) (λ a.
        on_pointer-ne-stuck (get_token r 5) _ _ (done-ne-stuck _) (λ b.
          bind-ne-stuck (Token.get_uint32 a) _ (get_uint32-ne-stuck a) (λ hsn.
            if-ne-stuck (is_ok hsn.result) _ _
              (λ good. bind-ne-stuck (Token.get_uint32 b) _ (get_uint32-ne-stuck b) (λ tsn.
                if-ne-stuck (is_ok tsn.result) _ _ (λ g. done-ne-stuck _) (λ n. done-ne-stuck _)))
              (λ bad. done-ne-stuck _))))

  -- With a steady clock, `start` returns, or leaves defined behaviour, for every drive.
  pub start-ne-stuck :
      (fresh : Response) (sp host_challenge sign_authority : List ℕ) (s : Session) (w : W)
      → start handle device fresh sp host_challenge sign_authority s w ≢ stuck
  unfolding start
  start-ne-stuck fresh sp host_challenge sign_authority s w =
      bind-ne-stuck (send_command handle device s _ fresh _) _ (send_command-ne-stuck s _ fresh _)
        (λ x.
          if-ne-stuck (not (is_ok x.0.result) || not (x.0.value == 0)) _ _
            (λ failed. done-ne-stuck _)
            (λ good.
              bind-ne-stuck
                (read_session_numbers handle device x.0 x.1 (record s { session_opened = true })) _
                (read_session_numbers-ne-stuck x.0 x.1 _)
                (λ y.
                  if-ne-stuck
                    (is_ok y.0.result && (not (is_empty host_challenge) && is_enterprise device)) _
                    _
                    (λ more.
                      bind-ne-stuck
                        (authenticate handle device fresh y.1 sign_authority host_challenge x.2) _
                        (authenticate-ne-stuck fresh y.1 sign_authority host_challenge x.2)
                        (λ u. done-ne-stuck _))
                    (λ n. done-ne-stuck _))))

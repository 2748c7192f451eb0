-- ===== src/Tcg/Device/Polling.antt =====
-- `TcgDeviceGeneric::exec`: it ends, and a good end leaves a response that is complete.
use mathlib.Core.Path.{subst}
use jcu_dparm.Common.{ℕ, zero, suc, ◌+◌, ◌-◌, ◌*◌, ◌≤◌, ◌<◌, ◌≡◌, ◌≢◌, sym, ap, ◌∙◌, arith}
use jcu_dparm.Common.{Bool, true, false, inl, inr, List, [], ltb, drop, swap32}
use jcu_dparm.Common.{done, stuck, done-injective, >>=-eq-done, bind-ne-stuck}
use jcu_dparm.Common.{read, if-ne-stuck, done-ne-stuck, if-cases}
use jcu_dparm.Err.{DparmResult, is_ok, success}
use jcu_dparm.Tcg.Types.{min_buffer_length, header_size}
use jcu_dparm.Tcg.Command.{Command, get_cmd_buf, get_cmd_size}
use jcu_dparm.Tcg.Response
use jcu_dparm.Tcg.Response.{Response, host_u32, commit, commit_from}
use jcu_dparm.Tcg.Response.Framing.{host_u32-ne-stuck, read-ne-stuck, commit-ne-stuck}
use jcu_dparm.Tcg.Response.Tiling.{IsTiling, commit-IsTiling}
use jcu_dparm.Tcg.Device.{Handle, Device, poll, receive, conclude, exec, is_any_ssc, is_outstanding}
use jcu_dparm.Tcg.Device.{feature, feature_u16, com_id_field, get_base_com_id}
use jcu_dparm.Tcg.Device.{poll_interval, timeout_duration, poll_fuel}

-- A steady clock: a sleep lasts as long as it is asked to, and no command takes time back.
pub record IsClock {W : Type 0} (handle : Handle W) : Type 0 where
  pub slept : (n : ℕ) (w : W) → handle.now w + n ≤ handle.now (handle.sleep_for n w)
  pub commanded :
      (send : Bool) (protocol com_id : ℕ) (buffer : List ℕ) (len : ℕ) (w : W)
      → handle.now w
        ≤ handle.now (handle.do_security_command send false protocol com_id buffer len w).2

pub is_outstanding-ne-stuck : (r : Response) → is_outstanding r ≢ stuck
unfolding is_outstanding
is_outstanding-ne-stuck r =
    bind-ne-stuck (host_u32 r.mem 8) _ (host_u32-ne-stuck r.mem 8)
      (λ a. bind-ne-stuck (host_u32 r.mem 12) _ (host_u32-ne-stuck r.mem 12) (λ b e. cc))

feature-ne-stuck : (d : Device) (code : ℕ) → feature d code ≢ stuck
feature-ne-stuck d code = ground arith

feature_u16-ne-stuck : (code i : ℕ) (d : Device) → feature_u16 code i d ≢ stuck
unfolding feature_u16
feature_u16-ne-stuck code i d = bind-ne-stuck (feature d code) _ (feature-ne-stuck d code) (λ m.
    bind-ne-stuck (read m i) _ (read-ne-stuck m i)
      (λ a. bind-ne-stuck (read m (i + 1)) _ (read-ne-stuck m (i + 1)) (λ b e. cc)))

pub com_id_field-ne-stuck : (i : ℕ) (d : Device) → com_id_field i d ≢ stuck
unfolding com_id_field
com_id_field-ne-stuck i d = ground (
  arith,
  feature_u16-ne-stuck 0x0200 i d,
  feature_u16-ne-stuck 0x0203 i d,
  feature_u16-ne-stuck 0x0100 i d,
)

module _ {W : Type 0} (handle : Handle W) (device : Device) where
  conclude-ne-stuck :
      (d : DparmResult) (r : Response) (w : W) → conclude handle device d r w ≢ stuck
  unfolding conclude
  conclude-ne-stuck d r w =
      if-ne-stuck (is_ok d) _ _
        (λ good. bind-ne-stuck (is_outstanding r) _ (is_outstanding-ne-stuck r) (λ more.
          if-ne-stuck more _ _ (λ m. done-ne-stuck _)
            (λ m. bind-ne-stuck (commit r) _ (commit-ne-stuck r) (λ x. ground arith))))
        (λ bad. done-ne-stuck _)

  pub receive-now :
      IsClock handle
      → (protocol com_id : ℕ) (r : Response) (w : W)
      → handle.now w + poll_interval ≤ handle.now (receive handle device protocol com_id r w).2
  unfolding receive
  receive-now clock protocol com_id r w = omega (
    arith,
    clock.slept poll_interval w,
    clock.commanded false protocol com_id (Response.reset r).mem min_buffer_length
        (handle.sleep_for poll_interval w),
  )

  poll-round :
      (fuel begin_at protocol com_id : ℕ) (r : Response) (w : W)
      → (ltb timeout_duration (handle.now w - begin_at) ≡ false
          → (let got = receive handle device protocol com_id r w in
              poll handle device fuel begin_at protocol com_id got.1 got.2 ≢ stuck))
      → poll handle device (suc fuel) begin_at protocol com_id r w ≢ stuck
  unfolding poll
  poll-round fuel begin_at protocol com_id r w again =
      let got = receive handle device protocol com_id r w in
      if-ne-stuck (is_ok got.0) _ _
        (λ good.
          if-ne-stuck (ltb timeout_duration (handle.now w - begin_at)) _ _ (λ late. done-ne-stuck _)
            (λ early.
              bind-ne-stuck (is_outstanding got.1) _ (is_outstanding-ne-stuck got.1)
                (λ more. if-ne-stuck more _ _ (λ m. again early) (λ m. done-ne-stuck _))))
        (λ bad. done-ne-stuck _)

  -- `fuel` counts the rounds behind this one: in the last one the time is over.
  poll-ne-stuck :
      IsClock handle
      → (fuel begin_at protocol com_id : ℕ) (r : Response) (w : W)
      → begin_at + timeout_duration < handle.now w + fuel * poll_interval
      → poll handle device (suc fuel) begin_at protocol com_id r w ≢ stuck
  poll-ne-stuck clock zero begin_at protocol com_id r w h =
      poll-round zero begin_at protocol com_id r w (λ early. absurd (ground arith))
  poll-ne-stuck clock (suc fuel) begin_at protocol com_id r w h =
      poll-round (suc fuel) begin_at protocol com_id r w (λ early.
        poll-ne-stuck clock fuel begin_at protocol com_id _ _
          (omega (arith, receive-now clock protocol com_id r w)))

  -- With a steady clock, `exec` ends, whatever the drive answers: 402 rounds of its poll loop are
  -- enough.
  pub exec-ne-stuck :
      IsClock handle
      → (cmd : Command) (r : Response) (protocol : ℕ) (w : W)
      → exec handle device cmd r protocol w ≢ stuck
  unfolding exec
  exec-ne-stuck clock cmd r protocol w =
      if-ne-stuck (is_any_ssc device) _ _
        (λ ssc. bind-ne-stuck (get_base_com_id device) _ (com_id_field-ne-stuck 4 device) (λ com_id.
          let sent =
            handle.do_security_command true false protocol com_id (get_cmd_buf cmd)
              (get_cmd_size cmd) w in
          let since = clock.commanded true protocol com_id (get_cmd_buf cmd) (get_cmd_size cmd) w in
          if-ne-stuck (is_ok sent.0) _ _
            (λ good.
              bind-ne-stuck (poll handle device poll_fuel (handle.now w) protocol com_id r sent.2) _
                (poll-ne-stuck clock 401 (handle.now w) protocol com_id r sent.2
                  (omega (arith, since)))
                (λ x. conclude-ne-stuck x.0 x.1 x.2))
            (λ bad. done-ne-stuck _)))
        (λ none. done-ne-stuck _)

-- A `commit` whose result is ok has gone the good way.
commit-is_ok :
    (r r' : Response) (c : DparmResult) → commit r ≡ done (c, r') → is_ok c ≡ true → c ≡ success
unfolding commit commit_from
commit-is_ok r r' c e ok =
    let (raw, here, cut) = >>=-eq-done (host_u32 r.mem 52) _ e in
    elim (if-cases (ltb min_buffer_length (header_size + swap32 raw)) _ _ _ cut) [
      | inl (long, same) ↦ absurd (ground arith)
      | inr (fits, more) ↦
          let (out, looped, same) =
            >>=-eq-done (Response.commit_loop (swap32 raw) (swap32 raw) (drop header_size r.mem) [])
              _ more in
          sym (ap (λ x. x.0) (done-injective same))
    ]

-- The test reads the buffer only.
is_outstanding-mem : (r r' : Response) → r'.mem ≡ r.mem → is_outstanding r' ≡ is_outstanding r
unfolding is_outstanding
is_outstanding-mem r r' e = rw e

module _ {W : Type 0} (handle : Handle W) (device : Device) where
  conclude-IsComplete :
      (d d' : DparmResult) (r r' : Response) (w w' : W)
      → conclude handle device d r w ≡ done (d', r', w')
      → is_ok d' ≡ true
      → (is_outstanding r ≡ done false) × (commit r ≡ done (success, r'))
  unfolding conclude
  conclude-IsComplete d d' r r' w w' e ok = elim (if-cases (is_ok d) _ _ _ e) [
    | inl (good, more) ↦
        let (busy, seen, rest) = >>=-eq-done (is_outstanding r) _ more in
        elim (if-cases busy _ _ _ rest) [
          | inl (late, same) ↦ absurd (ground arith)
          | inr (quiet, last) ↦
              let ((c, r1), cut, end) = >>=-eq-done (commit r) _ last in
              elim (if-cases (is_ok c) _ _ _ end) [
                | inl (fine, same) ↦ (cc, let s = commit-is_ok r r1 c cut fine in cc)
                | inr (bad, same) ↦ absurd (ground arith)
              ]
        ]
    | inr (bad, same) ↦ absurd (ground arith)
  ]

  -- The response that a good `exec` leaves is complete: the device is of an Opal class, the header
  -- announces no data that is still to come, and the tokens are those of its subpacket.
  pub exec-IsComplete :
      (cmd : Command) (r r' : Response) (protocol : ℕ) (w w' : W) (d : DparmResult)
      → exec handle device cmd r protocol w ≡ done (d, r', w')
      → is_ok d ≡ true
      → (is_any_ssc device ≡ true)
        × (is_outstanding r' ≡ done false)
        × ((raw : ℕ) × (host_u32 r'.mem 52 ≡ done raw)
            × IsTiling (swap32 raw) (drop header_size r'.mem) [] r'.tokens)
  unfolding exec
  exec-IsComplete cmd r r' protocol w w' d e ok = elim (if-cases (is_any_ssc device) _ _ _ e) [
    | inl (ssc, more) ↦
        let (com_id, named, rest) = >>=-eq-done (get_base_com_id device) _ more in
        let sent =
          handle.do_security_command true false protocol com_id (get_cmd_buf cmd) (get_cmd_size cmd)
            w in
        elim (if-cases (is_ok sent.0) _ _ _ rest) [
          | inl (good, last) ↦
              let ((d1, r1, w1), polled, end) =
                >>=-eq-done (poll handle device poll_fuel (handle.now w) protocol com_id r sent.2) _
                  last in
              let (quiet, cut) = conclude-IsComplete d1 d r1 r' w1 w' end ok in
              let (raw, here, tiling, same) = commit-IsTiling r1 r' cut in
              (
                ssc,
                is_outstanding-mem r1 r' same ∙ quiet,
                (
                  raw,
                  ap (λ m. host_u32 m 52) same ∙ here,
                  subst (λ m. IsTiling (swap32 raw) (drop header_size m) [] r'.tokens) (sym same)
                      tiling,
                ),
              )
          | inr (bad, same) ↦ absurd (ground arith)
        ]
    | inr (none, same) ↦ absurd (ground arith)
  ]

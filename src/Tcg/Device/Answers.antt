-- ===== src/Tcg/Device/Answers.antt =====
-- `TcgDeviceGeneric::exec` on a drive that answers in the end.
use jcu_dparm.Common.{ℕ, zero, suc, ◌+◌, ◌-◌, ◌*◌, ◌≤◌, ◌<◌, ◌≡◌, refl, ap, sym, ◌∙◌, arith}
use jcu_dparm.Common.{true, false, ltb, done}
use jcu_dparm.Err.{DparmResult, is_ok}
use jcu_dparm.Tcg.Command.{Command, get_cmd_buf, get_cmd_size}
use jcu_dparm.Tcg.Response.{Response, commit}
use jcu_dparm.Tcg.Device.{Handle, Device, poll, receive, conclude, exec, is_any_ssc, is_outstanding}
use jcu_dparm.Tcg.Device.{get_base_com_id, poll_interval, timeout_duration, poll_fuel}
use jcu_dparm.Tcg.Device.Polling.{IsClock, receive-now}

module _ {W : Type 0} (handle : Handle W) (device : Device) where
  -- What one round of the loop brings.
  abbrev pub brought : ℕ → ℕ → Response → W → DparmResult × Response × W
  brought protocol com_id r w = receive handle device protocol com_id r w

  -- The drive says `n` times that its answer is still to come, and then has it: `last` is what that
  -- round brings. Every round begins within the time that starts at `begin_at`.
  abbrev pub Answers : ℕ → ℕ → ℕ → ℕ → Response → W → DparmResult × Response × W → Type 0
  Answers begin_at protocol com_id zero r w last =
      (handle.now w ≤ begin_at + timeout_duration)
      × (is_ok (brought protocol com_id r w).0 ≡ true)
      × (is_outstanding (brought protocol com_id r w).1 ≡ done false)
      × (brought protocol com_id r w ≡ last)
  Answers begin_at protocol com_id (suc n) r w last =
      (handle.now w ≤ begin_at + timeout_duration)
      × (is_ok (brought protocol com_id r w).0 ≡ true)
      × (is_outstanding (brought protocol com_id r w).1 ≡ done true)
      × Answers begin_at protocol com_id n (brought protocol com_id r w).1
          (brought protocol com_id r w).2 last

  poll-Answers :
      (n fuel begin_at protocol com_id : ℕ) (r : Response) (w : W)
      (last : DparmResult × Response × W)
      → n < fuel
      → Answers begin_at protocol com_id n r w last
      → poll handle device fuel begin_at protocol com_id r w ≡ done last
  unfolding poll
  poll-Answers n zero begin_at protocol com_id r w last enough a = absurd (omega arith)
  poll-Answers zero (suc fuel) begin_at protocol com_id r w last enough (early, good, ready, end) =
      let in_time : ltb timeout_duration (handle.now w - begin_at) ≡ false = ground arith in
      rw (good, in_time, ready) (ap (λ t. done t) end)
  poll-Answers (suc n) (suc fuel) begin_at protocol com_id r w last enough
        (early, good, busy, later) =
      let in_time : ltb timeout_duration (handle.now w - begin_at) ≡ false = ground arith in
      rw (good, in_time, busy)
        (poll-Answers n fuel begin_at protocol com_id _ _ last (omega arith) later)

  -- A busy drive can be asked so often and no more.
  Answers-bound :
      IsClock handle
      → (n begin_at protocol com_id : ℕ) (r : Response) (w : W) (last : DparmResult × Response × W)
      → Answers begin_at protocol com_id n r w last
      → handle.now w + n * poll_interval ≤ begin_at + timeout_duration
  Answers-bound clock zero begin_at protocol com_id r w last a = omega (arith, a.0)
  Answers-bound clock (suc n) begin_at protocol com_id r w last (early, good, busy, later) = omega (
    arith,
    receive-now handle device clock protocol com_id r w,
    Answers-bound clock n begin_at protocol com_id _ _ last later,
  )

  Answers-last :
      (n begin_at protocol com_id : ℕ) (r : Response) (w : W) (last : DparmResult × Response × W)
      → Answers begin_at protocol com_id n r w last
      → (is_ok last.0 ≡ true) × (is_outstanding last.1 ≡ done false)
  Answers-last zero begin_at protocol com_id r w last (early, good, ready, end) =
      (ap (λ t. is_ok t.0) (sym end) ∙ good, ap (λ t. is_outstanding t.1) (sym end) ∙ ready)
  Answers-last (suc n) begin_at protocol com_id r w last (early, good, busy, later) =
      Answers-last n begin_at protocol com_id _ _ last later

  conclude_ok :
      (d : DparmResult) (r r' : Response) (w : W) (c : DparmResult)
      → is_ok d ≡ true
      → is_outstanding r ≡ done false
      → commit r ≡ done (c, r')
      → is_ok c ≡ true
      → conclude handle device d r w ≡ done (d, r', w)
  unfolding conclude
  conclude_ok d r r' w c good ready cut fine = simp (good, ready, cut, fine) refl

  -- A drive that answers in time is heard: on an Opal device and with a steady clock, if the command
  -- is taken, the drive says any number of times that its answer is still to come and then has it,
  -- within 10 seconds of the beginning, and the answer can be split into tokens, `exec` returns the
  -- good result of the last receiving command, with these tokens, in the world behind it.
  pub exec-Answers :
      IsClock handle
      → (cmd : Command) (r r' : Response) (protocol com_id n : ℕ) (w : W)
        (last : DparmResult × Response × W) (c : DparmResult)
      → is_any_ssc device ≡ true
      → get_base_com_id device ≡ done com_id
      → (let sent =
            handle.do_security_command true false protocol com_id
              (get_cmd_buf cmd)
              (get_cmd_size cmd)
              w in
          is_ok sent.0 ≡ true × Answers (handle.now w) protocol com_id n r sent.2 last)
      → commit last.1 ≡ done (c, r')
      → is_ok c ≡ true
      → exec handle device cmd r protocol w ≡ done (last.0, r', last.2)
  unfolding exec
  exec-Answers clock cmd r r' protocol com_id n w last c ssc named taken cut fine =
      let sent =
        handle.do_security_command true false protocol com_id (get_cmd_buf cmd) (get_cmd_size cmd)
          w in
      let since = clock.commanded true protocol com_id (get_cmd_buf cmd) (get_cmd_size cmd) w in
      let bound = Answers-bound clock n (handle.now w) protocol com_id r sent.2 last taken.1 in
      let heard =
        poll-Answers n poll_fuel (handle.now w) protocol com_id r sent.2 last
          (omega (arith, since, bound)) taken.1 in
      let (good, ready) = Answers-last n (handle.now w) protocol com_id r sent.2 last taken.1 in
      rw (ssc, named, taken.0, heard) (conclude_ok last.0 last.1 r' last.2 c good ready cut fine)

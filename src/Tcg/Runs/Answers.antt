-- ===== src/Tcg/Runs/Answers.antt =====
-- `exec` at a drive that is busy twice before it answers.
use jcu_dparm.Common.{ℕ, ◌+◌, List, [], ◌∷◌, ◌++◌, true, ◌≡◌, refl, arith, done, ltb, replicate}
use jcu_dparm.Common.{if◌then◌else◌, swap16, swap32}
use jcu_dparm.Err.{success}
use jcu_dparm.Tcg.Command.{empty_command}
use jcu_dparm.Tcg.Response
use jcu_dparm.Tcg.Response.{Response, commit}
use jcu_dparm.Tcg.Device.{
  Handle, exec, receive, is_any_ssc, is_outstanding, com_id_field, feature_u16, find_feature,
  get_base_com_id,
}
use jcu_dparm.Tcg.Device.Polling.{IsClock}
use jcu_dparm.Tcg.Device.Answers.{Answers, exec-Answers}
use jcu_dparm.Tcg.Runs.Sessions.{sync_response}
use jcu_dparm.Tcg.Runs.{World, power_on, answer, drive, opal, fresh}

-- Bytes are outstanding and none can be had.
abbrev busy_header : List ℕ
busy_header = replicate 11 0 ++ (1 ∷ replicate 44 0)

abbrev slow_drive : Handle World
slow_drive = record drive {
  do_security_command = λ send dma protocol com_id buffer len w.
      if send
      then (success, buffer, record w { commands = w.commands + 1 })
      else (success, if ltb w.time 60000000 then busy_header else answer w.commands, w);
}

slow_drive-IsClock : IsClock slow_drive
slow_drive-IsClock = record {
  slept = λ n w. omega arith;
  commanded = λ send protocol com_id buffer len w. ground arith;
}

abbrev sent : World
sent = record { time = 0; commands = 1 }

abbrev heard : World
heard = record { time = 75000000; commands = 1 }

abbrev filled : Response
filled = record { mem = answer 1; tokens = [] }

slow_drive-Answers : Answers slow_drive opal 0 0x01 2048 2 fresh sent (success, filled, heard)
unfolding receive is_outstanding Response.host_u32 Response.reset
slow_drive-Answers =
    (omega arith, refl, refl, (omega arith, refl, refl, (omega arith, refl, refl, refl)))

cut_now : commit filled ≡ done (success, sync_response)
unfolding Response.commit Response.commit_from Response.commit_loop Response.host_u32
    Response.token_length Response.is_empty_atom swap16 swap32
cut_now = refl

com_id_now : get_base_com_id opal ≡ done 2048
unfolding com_id_field feature_u16 find_feature swap16
com_id_now = refl

opal_ssc : is_any_ssc opal ≡ true
unfolding is_any_ssc
opal_ssc = refl

exec-Answers_example :
    exec slow_drive opal empty_command fresh 0x01 power_on ≡ done (success, sync_response, heard)
exec-Answers_example =
    exec-Answers slow_drive opal slow_drive-IsClock empty_command fresh sync_response 0x01 2048 2
      power_on (success, filled, heard) success opal_ssc com_id_now (refl, slow_drive-Answers)
      cut_now refl

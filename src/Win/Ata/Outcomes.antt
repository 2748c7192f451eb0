-- ===== src/Win/Ata/Outcomes.antt =====
-- What a result of the ATA driver for Windows shows.
use jcu_dparm.Common.{ℕ, ◌≡◌, ◌⊎◌, arith, List, Bool, true, false, Option}
use jcu_dparm.Err.{DparmResult, is_ok}
use jcu_dparm.Ata.{Tf}
use jcu_dparm.Win.Ata.{AtaParams, AtaReply, AtaCalls, zeroed, sent_copy, copied_back, ata_params}
use jcu_dparm.Win.Ata.{has_error, buffered_round, do_taskfile_cmd_impl}

module _ {W : Type 0} (calls : AtaCalls W) (h : ℕ) (write : Bool) (tf : Tf)
    (data' : Option (List ℕ)) (data_bytes timeout_secs : ℕ) (w : W) where
  abbrev request : AtaParams
  request = ata_params write tf data_bytes timeout_secs

  -- The first call, and the second one, behind it.
  abbrev direct : AtaReply × Option (List ℕ) × W
  direct = calls.pass_through_direct h request (zeroed write data_bytes data') w

  abbrev buffered : AtaReply × List ℕ × W
  buffered =
      calls.pass_through h request (sent_copy write data_bytes (zeroed write data_bytes direct.1))
        direct.2

  abbrev outcome : DparmResult × Option (List ℕ) × W
  outcome = do_taskfile_cmd_impl calls h write tf data' data_bytes timeout_secs w

  -- A good result comes from a first call that succeeded with a status that shows no error and no
  -- pending transfer, and the data are those that it left; or from a second call that succeeded,
  -- for a command whose own number has neither of the two bits, and the data are its copy.
  pub do_taskfile_cmd_impl_ok :
      is_ok outcome.0 ≡ true
      → (has_error direct.0.current_task_file ≡ false)
        × (((direct.0.is_success ≡ true) × (outcome.1 ≡ direct.1) × (outcome.2 ≡ direct.2))
            ⊎ ((direct.0.is_success ≡ false)
                × (buffered.0.is_success ≡ true)
                × (has_error request.current_task_file ≡ false)
                × (outcome.1
                    ≡ copied_back write data_bytes buffered.1 (zeroed write data_bytes direct.1))
                × (outcome.2 ≡ buffered.2)))
  unfolding do_taskfile_cmd_impl buffered_round ata_params
  do_taskfile_cmd_impl_ok good = ground arith

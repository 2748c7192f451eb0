-- ===== src/Win/Scsi/Outcomes.antt =====
-- What a result of the SCSI driver shows.
use jcu_dparm.Common.{
  ℕ, ◌≡◌, ◌≢◌, ◌⊎◌, inl, inr, refl, arith, List, Bool, true, false, Option, some,
}
use jcu_dparm.Common.{Bool-cases, if-cases, ap, sym, ◌∙◌, if◌then◌else◌}
use jcu_dparm.Err.{DparmResult, is_ok}
use jcu_dparm.Win.Ata.{zeroed, sent_copy, copied_back}
use jcu_dparm.Win.Scsi.{ScsiCalls, ScsiParams, ScsiReply, SenseData, Cdb, pass, scsi_result}
use jcu_dparm.Win.Scsi.{do_security_command_impl, security_cdb}

-- Sense data that do not count: the key is 0, or is not marked as valid.
abbrev pub IsClean : SenseData → Type 0
IsClean s = (s.valid ≡ false) ⊎ (s.sense_key ≡ 0)

scsi_result_ok :
    (r : ScsiReply) (d : List ℕ) (n : ℕ)
    → n ≢ 0
    → is_ok (scsi_result r (some d) n) ≡ true
    → (r.is_success ≡ true) × IsClean r.sense
unfolding scsi_result
scsi_result_ok r d n some_bytes good = elim (Bool-cases r.is_success) [
  | inl yes_success ↦ elim (Bool-cases r.sense.valid) [
    | inl v ↦ (yes_success, inr (ground arith))
    | inr v ↦ (yes_success, inl v)
  ]
  | inr no_success ↦ absurd (ground arith)
]

module _ {W : Type 0} (calls : ScsiCalls W) (h protocol com_id : ℕ) (write : Bool) (d : List ℕ)
    (data_bytes timeout_secs : ℕ) (w : W) where
  abbrev request : ScsiParams
  request = record {
    time_out_value = timeout_secs;
    is_data_out = write;
    cdb = Cdb.security (security_cdb write protocol com_id data_bytes);
    data_transfer_length = data_bytes;
  }

  abbrev direct : ScsiReply × Option (List ℕ) × W
  direct = calls.pass_through_direct h request (zeroed write data_bytes (some d)) w

  abbrev cleared : Option (List ℕ)
  cleared = zeroed write data_bytes direct.1

  abbrev buffered : ScsiReply × List ℕ × W
  buffered = calls.pass_through h request (sent_copy write data_bytes cleared) direct.2

  abbrev outcome : DparmResult × Option (List ℕ) × W
  outcome =
      do_security_command_impl calls h protocol com_id write (some d) data_bytes timeout_secs w

  -- A good security command with data comes from a call that succeeded with sense data whose key is
  -- 0 or that are not marked as valid: the first one, whose data it leaves, or, if that failed, the
  -- second one, whose copy it takes over.
  pub do_security_command_impl_ok :
      data_bytes ≢ 0
      → is_ok outcome.0 ≡ true
      → ((direct.0.is_success ≡ true)
          × IsClean direct.0.sense
          × (outcome.1 ≡ direct.1)
          × (outcome.2 ≡ direct.2))
        ⊎ ((direct.0.is_success ≡ false)
            × (buffered.0.is_success ≡ true)
            × IsClean buffered.0.sense
            × (outcome.1 ≡ copied_back write data_bytes buffered.1 cleared)
            × (outcome.2 ≡ buffered.2))
  unfolding do_security_command_impl pass
  do_security_command_impl_ok some_bytes good =
      elim (if-cases direct.0.is_success _ _ outcome refl) [
        | inl (first, same) ↦
            let clean =
              scsi_result_ok direct.0 d data_bytes some_bytes (ap (λ t. is_ok t.0) same ∙ good) in
            inl (first, clean.1, sym (ap (λ t. t.1) same), sym (ap (λ t. t.2) same))
        | inr (second, same) ↦
            let clean =
              scsi_result_ok buffered.0 d data_bytes some_bytes (ap (λ t. is_ok t.0) same ∙ good) in
            let taken =
              ap (λ b. if b then copied_back write data_bytes buffered.1 cleared else cleared)
                clean.0 in
            inr
              (second, clean.0, clean.1, sym (ap (λ t. t.1) same) ∙ taken, sym (ap (λ t. t.2) same))
      ]

-- ===== src/Drive/Sanitize/Nvme.antt =====
-- `doSanitizeCmd`, `getSanitizeEstimates` and `doNvmeGetSanitizeStatus` of
-- src/drive_handle_sanitize.cc. A value that the code leaves as `{}` is `none`.
use jcu_dparm.Common.{ℕ, ◌+◌, ◌*◌, ◌%◌, ◌^◌, ◌≡◌, ◌↔◌, ◌⊎◌, ◌<◌, ◌≤◌, not, arith, List}
use jcu_dparm.Common.{Bool, true, false, Option, none, some, if◌then◌else◌, ◌==◌, replicate}
use jcu_dparm.Common.{bit_and, bit_or, Outcome, done, ◌>>=◌}
use jcu_dparm.Common.Bits.{bit_and_ones}
use jcu_dparm.Err.{DparmResult, DparmReturn, is_ok, failed, success, returning, not_supported}
use jcu_dparm.Ata.Identify
use jcu_dparm.Ata.Identify.{byte_at}
use jcu_dparm.Drive.Driver.{Driver, is_atapi, is_nvme}
use jcu_dparm.Drive.LogPage.{do_nvme_get_log_page}
use jcu_dparm.Drive.Sanitize.{
  SanitizeFeature, SanitizeOptions, SanitizeCmdResult, Seconds, negative, ata_est_to_seconds,
  nvme_est_to_seconds, ata_sanitize, nvme_sanitize_cmd,
}

pub record SanitizeEstimates : Type 0 where
  pub security_erase : Seconds
  pub enhanced_security_erase : Seconds
  pub overwrite_time : Seconds
  pub block_erase_time : Seconds
  pub crypto_erase_time : Seconds

abbrev pub no_estimates : SanitizeEstimates
no_estimates = record {
  security_erase = negative 1;
  enhanced_security_erase = negative 1;
  overwrite_time = negative 1;
  block_erase_time = negative 1;
  crypto_erase_time = negative 1;
}

-- The fields of `nvme_sanitize_log_page_t`, in its 32 bytes.
abbrev pub page_u16 : List ℕ → ℕ → ℕ
page_u16 page i = byte_at page i + byte_at page (i + 1) * 2 ^ 8

abbrev pub page_u32 : List ℕ → ℕ → ℕ
page_u32 page i = page_u16 page i + page_u16 page (i + 2) * 2 ^ 16

-- The `switch` on the status.
unfoldable pub nvme_sanitize_result : List ℕ → SanitizeCmdResult → SanitizeCmdResult
nvme_sanitize_result page r =
    let state = bit_and (page_u16 page 2) 0x7 in
    if state == 0
    then record r { sanitize_states = 0x01 }
    else if state == 1
    then record r { sanitize_states = bit_or 0x01 0x10 }
    else if state == 2
    then record r { sanitize_states = 0x04; progress = some (page_u16 page 0) }
    else if state == 3
    then record r { sanitize_states = bit_or 0x01 0x08 }
    else r

unfoldable pub nvme_estimates : List ℕ → SanitizeEstimates → SanitizeEstimates
nvme_estimates page e = record e {
  block_erase_time = nvme_est_to_seconds (page_u32 page 12);
  crypto_erase_time = nvme_est_to_seconds (page_u32 page 16);
  overwrite_time = nvme_est_to_seconds (page_u32 page 8);
}

abbrev pub on_option : {A : Type 0} → (A → A) → Option A → Option A
on_option f none = none
on_option f (some a) = some (f a)

module _ {W : Type 0} (driver : Driver W) where
  -- The two pointers, with what they point at, may be null.
  unfoldable pub do_nvme_get_sanitize_status :
      Option SanitizeCmdResult
      → Option SanitizeEstimates
      → W
      → Outcome (DparmResult × Option SanitizeCmdResult × Option SanitizeEstimates × W)
  unfolding nvme_sanitize_result nvme_estimates
  do_nvme_get_sanitize_status result estimates w =
      do_nvme_get_log_page driver 0 0x81 false 32 (replicate 32 0) w >>= λ p.
      (if is_ok p.0
        then done (
          p.0,
          on_option (nvme_sanitize_result p.1) result,
          on_option (nvme_estimates p.1) estimates,
          p.2,
        )
        else done (p.0, result, estimates, p.2))

  -- `SanitizeCmdResult sanitize_status = {0}`
  abbrev pub zero_result : SanitizeCmdResult
  zero_result = record { raw_state = 0; sanitize_states = 0; progress = some 0 }

  abbrev pub is_status : SanitizeFeature → Bool
  is_status SanitizeFeature.status = true
  is_status _ = false

  unfoldable pub nvme_sanitize :
      SanitizeOptions → W → Outcome (DparmReturn (Option SanitizeCmdResult) × W)
  unfolding do_nvme_get_sanitize_status
  nvme_sanitize o w =
      if is_status o.feature
      then (do_nvme_get_sanitize_status (some zero_result) none w >>= λ p.
          done (returning p.0 p.1, p.3))
      else elim (nvme_sanitize_cmd o) [
        | none ↦ done (returning (failed not_supported) none, w)
        | some cmd ↦
            (let (r, data', w') = driver.do_nvme_admin_passthru cmd w in
              done (returning r.result none, w'))
      ]

  unfoldable pub do_sanitize_cmd :
      SanitizeOptions → W → Outcome (DparmReturn (Option SanitizeCmdResult) × W)
  unfolding nvme_sanitize
  do_sanitize_cmd o w =
      if is_atapi driver.driving_type
      then done (ata_sanitize driver o w)
      else if is_nvme driver.driving_type
      then nvme_sanitize o w
      else done (returning (failed not_supported) none, w)

  unfoldable pub ata_estimates : List ℕ → SanitizeEstimates
  ata_estimates identify =
      let seconds = λ (n : ℕ).
        ata_est_to_seconds (Identify.time_required identify n)
          (Identify.extended_time_reported identify n) in
      record no_estimates {
        security_erase = if Identify.security_supported identify then seconds 89 else negative 1;
        enhanced_security_erase =
            if Identify.enhanced_security_erase_supported identify then seconds 90 else negative 1;
      }

  unfoldable pub get_sanitize_estimates :
      List ℕ → W → Outcome (DparmReturn (Option SanitizeEstimates) × W)
  unfolding do_nvme_get_sanitize_status ata_estimates
  get_sanitize_estimates identify w =
      if is_atapi driver.driving_type
      then done (returning success (some (ata_estimates identify)), w)
      else if is_nvme driver.driving_type
      then (do_nvme_get_sanitize_status none (some no_estimates) w >>= λ p.
          done (returning p.0 p.2, p.3))
      else done (returning (failed not_supported) none, w)

-- `isRunning` of a result.
abbrev pub is_running : SanitizeCmdResult → Bool
is_running r = not (bit_and r.sanitize_states 0x04 == 0)

-- From a status without states, the page makes a running one exactly if its three status bits are
-- 2, which also carries the progress of the page; it makes an idle one exactly if they are 0, 1 or
-- 3; and from 4 on, which is how a drive reports that it has sanitized and deallocated, no state
-- is set at all.
pub nvme_sanitize_result_lem :
    (page : List ℕ) (r : SanitizeCmdResult)
    → r.sanitize_states ≡ 0
    → (let state = page_u16 page 2 % 8 in
        let r' = nvme_sanitize_result page r in
        ((is_running r' ≡ true) ↔ (state ≡ 2))
        × (state ≡ 2 → r'.progress ≡ some (page_u16 page 0))
        × ((bit_and r'.sanitize_states 0x01 ≡ 1) ↔ ((state < 2) ⊎ (state ≡ 3)))
        × ((r'.sanitize_states ≡ 0) ↔ (4 ≤ state)))
unfolding nvme_sanitize_result
nvme_sanitize_result_lem page r e = rw (bit_and_ones 3 (page_u16 page 2)) (ground arith)

-- ===== src/Err.antt =====
-- include/jcu-dparm/err.h: the result codes, and results with and without a value. An `int` or
-- `int32_t` field is carried as the number it holds; the code under src/ stores only 0, 1 and 2
-- there itself.
use jcu_dparm.Common.{ℕ, Bool, true, false}

pub data DparmCode : Type 0 where
  ok sys not_supported not_impl illegal_data illegal_response ioctl_failed io_timeout : DparmCode
  ata_failed nvme_failed operation_timeout tcg_error_status tcg_auth_failed : DparmCode

abbrev pub code_number : DparmCode → ℕ
code_number ok = 0
code_number sys = 1
code_number not_supported = 2
code_number not_impl = 3
code_number illegal_data = 11
code_number illegal_response = 12
code_number ioctl_failed = 21
code_number io_timeout = 22
code_number ata_failed = 31
code_number nvme_failed = 34
code_number operation_timeout = 40
code_number tcg_error_status = 104
code_number tcg_auth_failed = 105

pub record DparmResult : Type 0 where
  pub code : DparmCode
  pub sys_error : ℕ
  pub drive_status : ℕ

-- The inheritance of `DparmReturn<T>` from `DparmResult` is a field that is opened.
pub record DparmReturn {ℓ} (A : Type ℓ) : Type ℓ where
  pub result : DparmResult
  pub open result use *
  pub value : A

abbrev pub code_is_ok : DparmCode → Bool
code_is_ok ok = true
code_is_ok _ = false

abbrev pub is_ok : DparmResult → Bool
is_ok r = code_is_ok r.code

-- `{ code, sys_error }` and `{ code, sys_error, drive_status }`.
abbrev pub failed : DparmCode → DparmResult
failed c = record { code = c; sys_error = 0; drive_status = 0 }

abbrev pub success : DparmResult
success = failed ok

abbrev pub returning {ℓ} : {A : Type ℓ} → DparmResult → A → DparmReturn A
returning r v = record { result = r; value = v }

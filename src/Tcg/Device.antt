-- ===== src/Tcg/Device.antt =====
-- src/tcg/tcg_device_general.cc, tcg_device_enterprise.cc, tcg_device_opal_base.cc,
-- tcg_device_opal_1.cc and tcg_device_opal_2.cc: what a TCG device reads off the drive's features,
-- and `exec`, which sends a command and polls for its response.
pub mod Polling
pub mod Answers
use jcu_dparm.Common.{ℕ, zero, suc, ◌+◌, ◌-◌, ◌*◌, ◌%◌, ◌/◌, ◌^◌, ◌≤◌, List, [], ◌∷◌}
use jcu_dparm.Common.{Bool, true, false, not, ◌&&◌, if◌then◌else◌, ltb, ◌==◌, Option, none, some}
use jcu_dparm.Common.{Outcome, done, fault, stuck, ◌>>=◌, read, swap16}
use jcu_dparm.Err.{DparmResult, is_ok, failed, not_supported, operation_timeout}
use jcu_dparm.Tcg.Types.{TcgDeviceType, min_buffer_length, fc_locking, fc_enterprise}
use jcu_dparm.Tcg.Types.{fc_opal_ssc_v100, fc_opal_ssc_v200}
use jcu_dparm.Tcg.Command.{Command, get_cmd_buf, get_cmd_size}
use jcu_dparm.Tcg.Response
use jcu_dparm.Tcg.Response.{Response}

-- What the device uses of the drive handle and of the system, over the state `W` of the world:
-- `doSecurityCommand`, `std::chrono::steady_clock::now` in nanoseconds, `sleep_for`, the random
-- source of a session, and `pbkdf2` with SHA-1 for an iteration count and a key length.
pub record Handle (W : Type 0) : Type 0 where
  -- rw, dma, protocol, com_id, buffer, len
  pub do_security_command : Bool → Bool → ℕ → ℕ → List ℕ → ℕ → W → DparmResult × List ℕ × W
  pub now : W → ℕ
  pub sleep_for : ℕ → W → W
  pub next_int64 : W → ℕ × W
  pub pbkdf2 : ℕ → ℕ → List ℕ → List ℕ

-- The class of a device, with what it reads of `DriveInfo`.
pub record Device : Type 0 where
  pub device_type : TcgDeviceType
  pub tcg_locking : Bool
  pub tcg_raw_features : List (ℕ × List ℕ)

unfoldable pub find_feature : ℕ → List (ℕ × List ℕ) → Option (List ℕ)
find_feature code [] = none
find_feature code ((c, bytes) ∷ rest) = if c == code then some bytes else find_feature code rest

-- `find` and the `assert` behind it, then the feature's bytes.
abbrev pub feature : Device → ℕ → Outcome (List ℕ)
feature d code = elim (find_feature code d.tcg_raw_features) [ none ↦ fault | some m ↦ done m ]

abbrev pub is_enterprise : Device → Bool
is_enterprise d = elim d.device_type [ TcgDeviceType.opal_enterprise_device ↦ true | _ ↦ false ]

-- `TcgDeviceOpalBase` overrides `isAnySSC`, `TcgDeviceEnterprise` does not.
unfoldable pub is_any_ssc : Device → Bool
is_any_ssc d = elim d.device_type [
  | TcgDeviceType.generic_device ↦ false
  | TcgDeviceType.opal_v1_device ↦ true
  | TcgDeviceType.opal_v2_device ↦ true
  | TcgDeviceType.opal_enterprise_device ↦ false
]

abbrev pub is_locking_supported : Device → Bool
is_locking_supported d = d.tcg_locking

-- A bit of byte 4 of the locking feature, behind the 4 bytes that every feature starts with.
unfoldable pub locking_bit : ℕ → Device → Outcome Bool
locking_bit k d =
    if d.tcg_locking
    then (feature d fc_locking >>= λ m. read m 4 >>= λ b. done (not (b / 2 ^ k % 2 == 0)))
    else done false

abbrev pub is_locking_enabled : Device → Outcome Bool
is_locking_enabled = locking_bit 1

abbrev pub is_locked : Device → Outcome Bool
is_locked = locking_bit 2

abbrev pub is_media_encryption : Device → Outcome Bool
is_media_encryption = locking_bit 3

abbrev pub is_mbr_enabled : Device → Outcome Bool
is_mbr_enabled = locking_bit 4

abbrev pub is_mbr_done : Device → Outcome Bool
is_mbr_done = locking_bit 5

-- `SWAP16` of the two bytes at `i` of a feature.
unfoldable pub feature_u16 : ℕ → ℕ → Device → Outcome ℕ
feature_u16 code i d = do
  m ← feature d code
  a ← read m i
  b ← read m (i + 1)
  done (swap16 (a + b * 2 ^ 8))

-- The com ids stand at the same places in the three features: byte 4 and byte 6.
unfoldable pub com_id_field : ℕ → Device → Outcome ℕ
com_id_field i d = elim d.device_type [
  | TcgDeviceType.generic_device ↦ done 0
  | TcgDeviceType.opal_v1_device ↦ feature_u16 fc_opal_ssc_v100 i d
  | TcgDeviceType.opal_v2_device ↦ feature_u16 fc_opal_ssc_v200 i d
  | TcgDeviceType.opal_enterprise_device ↦ feature_u16 fc_enterprise i d
]

abbrev pub get_base_com_id : Device → Outcome ℕ
get_base_com_id = com_id_field 4

abbrev pub get_num_com_ids : Device → Outcome ℕ
get_num_com_ids = com_id_field 6

-- `outstanding_data && (!min_transfer)`, of the response's header.
unfoldable pub is_outstanding : Response → Outcome Bool
is_outstanding r = do
  outstanding ← Response.host_u32 r.mem 8
  min_transfer ← Response.host_u32 r.mem 12
  done (not (outstanding == 0) && min_transfer == 0)

abbrev pub poll_interval : ℕ
poll_interval = 25 * 1000000

abbrev pub timeout_duration : ℕ
timeout_duration = 10000 * 1000000

-- 402 rounds are enough: the clock advances by 25 ms in each.
abbrev pub poll_fuel : ℕ
poll_fuel = 402

module _ {W : Type 0} (handle : Handle W) (device : Device) where
  -- `sleep_for`, `resp.reset`, and the receiving command.
  unfoldable pub receive : ℕ → ℕ → Response → W → DparmResult × Response × W
  receive protocol com_id r w =
      let (d, mem', w') =
        handle.do_security_command false false protocol com_id (Response.reset r).mem
          min_buffer_length (handle.sleep_for poll_interval w) in
      (d, record r { mem = mem' }, w')

  -- `do … while`, with fuel: the returned result is not ok where the loop returns, and ok where it
  -- ends or breaks. `begin_at` is the time at the start of `exec`.
  unfoldable pub poll : ℕ → ℕ → ℕ → ℕ → Response → W → Outcome (DparmResult × Response × W)
  poll zero begin_at protocol com_id r w = stuck
  poll (suc fuel) begin_at protocol com_id r w =
      let spent_time = handle.now w - begin_at in
      let (d, r', w') = receive protocol com_id r w in
      let again = poll fuel begin_at protocol com_id r' w' in
      if is_ok d
      then (if ltb timeout_duration spent_time
          then done (d, r', w')
          else (is_outstanding r' >>= λ more. if more then again else done (d, r', w')))
      else done (d, r', w')

  -- What follows the loop: the second test of the header, and the split into tokens.
  unfoldable pub conclude : DparmResult → Response → W → Outcome (DparmResult × Response × W)
  conclude d r w =
      if is_ok d
      then (is_outstanding r >>= λ more.
          if more
          then done (record (failed operation_timeout) { drive_status = d.drive_status }, r, w)
          else (Response.commit r >>= λ (c, r').
              if is_ok c then done (d, r', w) else done (c, r', w)))
      else done (d, r, w)

  unfoldable pub exec : Command → Response → ℕ → W → Outcome (DparmResult × Response × W)
  exec cmd r protocol w =
      let begin_at = handle.now w in
      if is_any_ssc device
      then (get_base_com_id device >>= λ com_id.
          let (d, buf, w1) =
            handle.do_security_command true false protocol com_id (get_cmd_buf cmd)
              (get_cmd_size cmd) w in
          if is_ok d
          then (poll poll_fuel begin_at protocol com_id r w1 >>= λ (d', r', w'). conclude d' r' w')
          else done (d, r, w1))
      else done (failed not_supported, r, w)

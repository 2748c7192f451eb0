-- ===== src/Tcg/Runs.antt =====
-- Runs of the TCG part on concrete input: a simulated drive, tests, and the uses of the theorems.
mod Buffers
mod Sessions
mod Answers
use jcu_dparm.Common.{
  ℕ, ◌+◌, List, [], ◌∷◌, ◌++◌, Bool, true, false, if◌then◌else◌, ◌==◌, replicate, arith,
}
use jcu_dparm.Err.{success}
use jcu_dparm.Tcg.Types.{TcgDeviceType}
use jcu_dparm.Tcg.Response.{Response}
use jcu_dparm.Tcg.Device.{Handle, Device}
use jcu_dparm.Tcg.Device.Polling.{IsClock}

-- The state of the drive: its clock, and the number of commands that it was sent.
pub record World : Type 0 where
  pub time : ℕ
  pub commands : ℕ

abbrev pub power_on : World
power_on = record { time = 0; commands = 0 }

-- A header that announces `n` bytes of payload, with the other two lengths not 0.
abbrev pub header : ℕ → List ℕ
header n = replicate 19 0 ++ (1 ∷ (replicate 23 0 ++ (1 ∷ (replicate 11 0 ++ (n ∷ [])))))

-- SyncSession with the session numbers 105 and 4097, and the status list.
abbrev pub sync_session : List ℕ
sync_session =
    0xf8 ∷ 0xa1 ∷ 0x00 ∷ 0xa1 ∷ 0x00 ∷ 0xf0 ∷ 0x81 ∷ 0x69 ∷ 0x82 ∷ 0x10 ∷ 0x01 ∷ 0xf1 ∷ 0xf9 ∷ 0xf0
    ∷ 0x00 ∷ 0x00 ∷ 0x00 ∷ 0xf1 ∷ []

-- A table with one column, whose value is a text of three bytes.
abbrev pub table_row : List ℕ
table_row =
    0xf0 ∷ 0xf0 ∷ 0xf2 ∷ 0x03 ∷ 0xa3 ∷ 0x70 ∷ 0x77 ∷ 0x64 ∷ 0xf3 ∷ 0xf1 ∷ 0xf1 ∷ 0xf9 ∷ 0xf0 ∷ 0x00
    ∷ 0x00 ∷ 0x00 ∷ 0xf1 ∷ []

-- The first command is answered by SyncSession, every later one by the table.
abbrev pub answer : ℕ → List ℕ
answer n = if n == 1 then header 18 ++ sync_session else header 17 ++ table_row

abbrev pub drive : Handle World
drive = record {
  do_security_command = λ send dma protocol com_id buffer len w.
      if send
      then (success, buffer, record w { commands = w.commands + 1 })
      else (success, answer w.commands, w);
  now = λ w. w.time;
  sleep_for = λ n w. record w { time = w.time + n };
  next_int64 = λ w. (7, w);
  pbkdf2 = λ iteration key_length password. password;
}

-- An Opal 2 device with the base com id 2048, and an Enterprise device with the same.
abbrev pub opal : Device
opal = record {
  device_type = TcgDeviceType.opal_v2_device;
  tcg_locking = false;
  tcg_raw_features = (0x0203, 0x02 ∷ 0x03 ∷ 0x10 ∷ 0x04 ∷ 0x08 ∷ 0x00 ∷ 0x00 ∷ 0x01 ∷ []) ∷ [];
}

abbrev pub enterprise : Device
enterprise = record {
  device_type = TcgDeviceType.opal_enterprise_device;
  tcg_locking = false;
  tcg_raw_features = (0x0100, 0x01 ∷ 0x00 ∷ 0x10 ∷ 0x04 ∷ 0x08 ∷ 0x00 ∷ 0x00 ∷ 0x01 ∷ []) ∷ [];
}

abbrev pub fresh : Response
fresh = record { mem = []; tokens = [] }

pub drive-IsClock : IsClock drive
drive-IsClock = record {
  slept = λ n w. omega arith;
  commanded = λ send protocol com_id buffer len w. ground arith;
}

-- ===== src/Drive/Discovery.antt =====
-- `DriveHandleBase::tcgDiscovery0` and `getTcgDevice`: the features that a drive announces, and the
-- device class that they select.
pub mod Features
use jcu_dparm.Common.{ℕ, zero, suc, ◌+◌, ◌-◌, ◌*◌, ◌%◌, ◌^◌, List, [], ◌∷◌, ◌++◌}
use jcu_dparm.Common.{Bool, true, false, if◌then◌else◌, ltb, ◌==◌, Option, none, some}
use jcu_dparm.Common.{Outcome, done, fault, stuck, ◌>>=◌, read, read_bytes, swap16, swap32}
use jcu_dparm.Common.{length, drop, replicate}
use jcu_dparm.Err.{DparmCode, DparmResult, is_ok, failed, illegal_response}
use jcu_dparm.Tcg.Types
use jcu_dparm.Tcg.Types.{TcgDeviceType}
use jcu_dparm.Tcg.Response.{host_u32}
use jcu_dparm.Tcg.Device.{Handle, Device, find_feature}

-- `tcg_support` of `DriveInfo`: 0, 1, or -1 where the discovery failed.
pub data TcgSupport : Type 0 where
  unsupported supported unknown : TcgSupport

-- The part of `DriveInfo` that the discovery writes. The map's entries are in the order in which
-- they came in; there is one for a code at most.
pub record TcgInfo : Type 0 where
  pub tcg_support : TcgSupport
  pub tcg_tper : Bool
  pub tcg_locking : Bool
  pub tcg_geometry_reporting : Bool
  pub tcg_opal_v100 : Bool
  pub tcg_opal_v200 : Bool
  pub tcg_enterprise : Bool
  pub tcg_single_user_mode : Bool
  pub tcg_datastore : Bool
  pub tcg_raw_features : List (ℕ × List ℕ)

-- The constructor of `DriveInfo`.
abbrev pub no_info : TcgInfo
no_info = record {
  tcg_support = TcgSupport.unsupported;
  tcg_tper = false;
  tcg_locking = false;
  tcg_geometry_reporting = false;
  tcg_opal_v100 = false;
  tcg_opal_v200 = false;
  tcg_enterprise = false;
  tcg_single_user_mode = false;
  tcg_datastore = false;
  tcg_raw_features = [];
}

-- The `switch` on the feature code.
unfoldable pub set_flag : ℕ → TcgInfo → TcgInfo
set_flag code i =
    if code == Types.fc_tper
    then record i { tcg_tper = true }
    else if code == Types.fc_locking
    then record i { tcg_locking = true }
    else if code == Types.fc_geometry_reporting
    then record i { tcg_geometry_reporting = true }
    else if code == Types.fc_opal_ssc_v100
    then record i { tcg_opal_v100 = true }
    else if code == Types.fc_opal_ssc_v200
    then record i { tcg_opal_v200 = true }
    else if code == Types.fc_enterprise
    then record i { tcg_enterprise = true }
    else if code == Types.fc_single_user
    then record i { tcg_single_user_mode = true }
    else if code == Types.fc_data_store
    then record i { tcg_datastore = true }
    else i

-- `emplace` keeps the entry that is there.
unfoldable pub emplace : ℕ → List ℕ → List (ℕ × List ℕ) → List (ℕ × List ℕ)
emplace code item entries = elim (find_feature code entries) [
  | none ↦ entries ++ ((code, item) ∷ [])
  | some m ↦ entries
]

abbrev pub add_feature : ℕ → List ℕ → TcgInfo → TcgInfo
add_feature code item i =
    let i' = set_flag code i in
    record i' { tcg_raw_features = emplace code item i'.tcg_raw_features }

-- `while (discovery_cptr < discovery_dend)`, with fuel: the first argument is what is left up to
-- the end that the header announces, `m` the buffer from `discovery_cptr` on. A round takes 4 bytes
-- at least.
unfoldable pub walk : ℕ → ℕ → List ℕ → TcgInfo → Outcome TcgInfo
walk zero fuel m i = done i
walk (suc left) zero m i = stuck
walk (suc left) (suc fuel) m i = do
  a ← read m 0
  b ← read m 1
  n ← read m 3
  item ← read_bytes (n + 4) m
  walk (suc left - (n + 4)) fuel (drop (n + 4) m) (add_feature (swap16 (a + b * 2 ^ 8)) item i)

-- sizeof(discovery0_header_t), packed.
abbrev pub discovery0_header_size : ℕ
discovery0_header_size = 32

-- What follows the security command, on the buffer from `buffer_ptr` to its end.
unfoldable pub read_features : DparmResult → List ℕ → TcgInfo → Outcome (DparmResult × TcgInfo)
read_features dr m i = do
  raw ← host_u32 m 0
  let total = swap32 raw
  let i' = record i { tcg_support = TcgSupport.supported }
  if ltb (length m) total
      then done (failed illegal_response, i')
      else (let left = total - discovery0_header_size in
          walk left left (drop discovery0_header_size m) i' >>= λ i''. done (dr, i''))

abbrev pub is_not_supported : DparmCode → Bool
is_not_supported DparmCode.not_supported = true
is_not_supported _ = false

-- `room` is the size of the zeroed buffer from `buffer_ptr` on: 3072 less what the alignment skips.
unfoldable pub tcg_discovery0 :
    {W : Type 0} → Handle W → ℕ → TcgInfo → W → Outcome (DparmResult × TcgInfo × W)
tcg_discovery0 handle room i w =
    let (dr, m, w') =
      handle.do_security_command false false 0x01 0x0001 (replicate room 0) Types.min_buffer_length
        w in
    if is_ok dr
    then (read_features dr m i >>= λ (r, i'). done (r, i', w'))
    else done (
      dr,
      record i {
        tcg_support =
            if is_not_supported dr.code then TcgSupport.unsupported else TcgSupport.unknown;
      },
      w',
    )

-- The class that `getTcgDevice` makes once the drive supports TCG; `-1` counts as support as well.
unfoldable pub chosen_class : TcgInfo → TcgDeviceType
chosen_class i =
    if i.tcg_opal_v200
    then TcgDeviceType.opal_v2_device
    else if i.tcg_opal_v100
    then TcgDeviceType.opal_v1_device
    else if i.tcg_enterprise
    then TcgDeviceType.opal_enterprise_device
    else TcgDeviceType.generic_device

unfoldable pub device_class : TcgInfo → Option TcgDeviceType
device_class i = elim i.tcg_support [ TcgSupport.unsupported ↦ none | _ ↦ some (chosen_class i) ]

-- `tcg_device_` is made once, and then returned as it is.
unfoldable pub get_tcg_device : Option TcgDeviceType → TcgInfo → Option TcgDeviceType
get_tcg_device (some device) i = some device
get_tcg_device none i = device_class i

-- A device of the class, as it sees the drive's info.
abbrev pub device_of : TcgDeviceType → TcgInfo → Device
device_of class i = record {
  device_type = class;
  tcg_locking = i.tcg_locking;
  tcg_raw_features = i.tcg_raw_features;
}

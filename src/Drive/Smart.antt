-- ===== src/Drive/Smart.antt =====
-- `readAtaSmartStatus` and `readNvmeSmartLogPage` of src/drive_handle_base.cc.
pub mod Attributes
use jcu_dparm.Common.{ℕ, zero, suc, ◌+◌, ◌-◌, ◌*◌, ◌/◌, ◌%◌, ◌^◌, ◌≤◌, ◌<◌, ◌≡◌, refl, sym, ap, ◌∙◌}
use jcu_dparm.Common.{arith, List, [], ◌∷◌, ◌++◌, map, Bool, true, false, not, if◌then◌else◌, ◌==◌}
use jcu_dparm.Common.{length, take, drop, replicate, leb, length-append, append-nil, append_assoc}
use jcu_dparm.Common.{Outcome, done, fault, ◌>>=◌, Bool-cases, inl, inr, set, ltb}
use jcu_dparm.Common.{length-replicate}
use jcu_dparm.Err.{DparmResult, DparmReturn, is_ok, failed, returning, not_impl}
use jcu_dparm.Ata.{Tf, zero_tf, zero_regs}
use jcu_dparm.Ata.Identify.{byte_at}
use jcu_dparm.Drive.Driver.{Driver, Dma, is_atapi, is_nvme}
use jcu_dparm.Drive.LogPage.{do_nvme_get_log_page}

pub record SmartAttribute : Type 0 where
  pub id : ℕ
  pub flags : ℕ
  pub current : ℕ
  pub worst : ℕ
  pub threshold : ℕ
  pub raw : List ℕ

-- The constructors of `SMARTAttribute` and `SMARTStatus`.
abbrev pub new_attribute : SmartAttribute
new_attribute = record { id = 0; flags = 0; current = 0; worst = 0; threshold = 0; raw = [] }

pub record SmartStatus : Type 0 where
  pub smart_capability : ℕ
  pub attributes : List SmartAttribute

abbrev pub new_status : SmartStatus
new_status = record { smart_capability = 0; attributes = [] }

-- SMART READ DATA and SMART READ THRESHOLDS.
unfoldable pub smart_tf : ℕ → Tf
smart_tf feature = record zero_tf {
  command = 0xb0;
  lob = record zero_regs { feat = feature; nsect = 1; lbam = 0x4f; lbah = 0xc2 };
}

abbrev pub attributes_number : ℕ
attributes_number = 30

-- Entry `i` of the table at byte 2, whose entries have 12 bytes.
abbrev pub entry_id : List ℕ → ℕ → ℕ
entry_id data' i = byte_at data' (2 + 12 * i)

-- The assignments from `values.attributes[i]`.
unfoldable pub attribute_at : List ℕ → ℕ → SmartAttribute
attribute_at values i = record new_attribute {
  id = entry_id values i;
  flags = byte_at values (3 + 12 * i) + byte_at values (4 + 12 * i) * 2 ^ 8;
  current = byte_at values (5 + 12 * i);
  worst = byte_at values (6 + 12 * i);
  raw = take 6 (drop (7 + 12 * i) values);
}

-- The first loop, for the `n` entries from `i` on.
unfoldable pub count_ids : List ℕ → ℕ → ℕ → ℕ
count_ids values zero i = 0
count_ids values (suc n) i =
    let rest = count_ids values n (i + 1) in if entry_id values i == 0 then rest else 1 + rest

-- `attributes[k] = a`.
abbrev pub store : List SmartAttribute → ℕ → SmartAttribute → Outcome (List SmartAttribute)
store attributes k a = if ltb k (length attributes) then done (set attributes k a) else fault

-- A round of the second loop; `k` is `temp_count`.
unfoldable pub fill_entry : List ℕ → ℕ → ℕ → List SmartAttribute → Outcome (ℕ × List SmartAttribute)
unfolding attribute_at
fill_entry values i k attributes =
    if entry_id values i == 0
    then done (k, attributes)
    else (store attributes k (attribute_at values i) >>= λ stored. done (k + 1, stored))

unfoldable pub fill : List ℕ → ℕ → ℕ → ℕ → List SmartAttribute → Outcome (List SmartAttribute)
unfolding fill_entry
fill values zero i k attributes = done attributes
fill values (suc n) i k attributes =
    fill_entry values i k attributes >>= λ p. fill values n (i + 1) p.0 p.1

-- The inner loop of the third one: the first attribute of that number.
unfoldable pub set_threshold : ℕ → ℕ → List SmartAttribute → List SmartAttribute
set_threshold id threshold [] = []
set_threshold id threshold (a ∷ rest) =
    if a.id == id
    then record a { threshold = threshold } ∷ rest
    else a ∷ set_threshold id threshold rest

unfoldable pub set_thresholds : List ℕ → ℕ → ℕ → List SmartAttribute → List SmartAttribute
unfolding set_threshold
set_thresholds thresholds zero i attributes = attributes
set_thresholds thresholds (suc n) i attributes = set_thresholds thresholds n (i + 1) (
    if entry_id thresholds i == 0
    then attributes
    else set_threshold (entry_id thresholds i) (byte_at thresholds (3 + 12 * i)) attributes)

-- From `smart_status.smart_capability = …` to the end of the block, for `n` entries.
unfoldable pub parse_entries : ℕ → List ℕ → List ℕ → Outcome SmartStatus
unfolding count_ids fill set_thresholds
parse_entries n values thresholds =
    fill values n 0 0 (replicate (count_ids values n 0) new_attribute) >>= λ attributes.
    done record {
      smart_capability = byte_at values 368 + byte_at values 369 * 2 ^ 8;
      attributes = set_thresholds thresholds n 0 attributes;
    }

unfoldable pub parse_smart : List ℕ → List ℕ → Outcome SmartStatus
unfolding parse_entries
parse_smart values thresholds = parse_entries attributes_number values thresholds

module _ {W : Type 0} (driver : Driver W) where
  unfoldable pub read_ata_smart_status : W → Outcome (DparmReturn SmartStatus × W)
  unfolding parse_smart smart_tf
  read_ata_smart_status w =
      if is_atapi driver.driving_type
      then (let (dr, tf, values, w') =
            driver.do_taskfile_cmd false Dma.pio (smart_tf 0xd0) (replicate 512 0) 512 15 w in
          let (dr', tf', thresholds, w'') =
            driver.do_taskfile_cmd false Dma.pio (smart_tf 0xd1) (replicate 512 0) 512 15 w' in
          if is_ok dr
          then (if is_ok dr'
              then (parse_smart values thresholds >>= λ s. done (returning dr' s, w''))
              else done (returning dr' new_status, w''))
          else done (returning dr new_status, w'))
      else done (returning (failed not_impl) new_status, w)

  -- The page is its 512 bytes.
  unfoldable pub read_nvme_smart_log_page : W → Outcome (DparmReturn (List ℕ) × W)
  unfolding do_nvme_get_log_page
  read_nvme_smart_log_page w =
      if is_nvme driver.driving_type
      then (do_nvme_get_log_page driver 0xffffffff 0x02 false 512 (replicate 512 0) w >>= λ p.
          done (returning p.0 p.1, p.2))
      else done (returning (failed not_impl) (replicate 512 0), w)

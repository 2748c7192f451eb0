-- ===== src/Drive/Discovery/Features.antt =====
-- The flags that a discovery sets and the features that it stores agree, so that the device it
-- selects finds the feature it asks for.
use mathlib.Core.Path.{subst}
use jcu_dparm.Common.{bind-ne-stuck, if-ne-stuck, done-ne-stuck}
use jcu_dparm.Tcg.Response.Framing.{read-ne-stuck, read_bytes-ne-stuck, host_u32-ne-stuck}
use jcu_dparm.Common.{
  ℕ, zero, suc, ◌+◌, ◌-◌, ◌*◌, ◌^◌, ◌≤◌, ◌≡◌, ◌≢◌, ◌⊎◌, sym, ap, ◌∙◌, arith, inl, inr,
}
use jcu_dparm.Common.{List, [], ◌∷◌, ◌++◌, true, false, ltb}
use jcu_dparm.Common.{none, some, done, stuck, read, read_bytes, swap16, swap32}
use jcu_dparm.Common.{
  drop, length, >>=-elim, done-injective, if-cases, Option-cases, replicate, All,
}
use jcu_dparm.Err.{DparmResult, is_ok}
use jcu_dparm.Tcg.Types
use jcu_dparm.Tcg.Response.{host_u32}
use jcu_dparm.Tcg.Types.{TcgDeviceType}
use jcu_dparm.Tcg.Device.{Handle, find_feature}
use jcu_dparm.Drive.Discovery

-- The features have an entry for the code.
pub IsPresent : ℕ → List (ℕ × List ℕ) → Type 0
IsPresent code entries = (m : List ℕ) × (find_feature code entries ≡ some m)

find-append :
    (code c : ℕ) (item m : List ℕ) (entries : List (ℕ × List ℕ))
    → find_feature code entries ≡ some m
    → find_feature code (entries ++ ((c, item) ∷ [])) ≡ some m
unfolding find_feature
find-append code c item m [] e = cc
find-append code c item m ((d, x) ∷ rest) e = ground (arith, find-append code c item m rest)

find-last :
    (code : ℕ) (item : List ℕ) (entries : List (ℕ × List ℕ))
    → find_feature code entries ≡ none
    → find_feature code (entries ++ ((code, item) ∷ [])) ≡ some item
unfolding find_feature
find-last code item [] e = ground arith
find-last code item ((d, x) ∷ rest) e = ground (arith, find-last code item rest)

emplace-new :
    (c : ℕ) (item : List ℕ) (entries : List (ℕ × List ℕ))
    → find_feature c entries ≡ none
    → Discovery.emplace c item entries ≡ entries ++ ((c, item) ∷ [])
unfolding Discovery.emplace
emplace-new c item entries e = rw (Discovery.emplace, e)

emplace-old :
    (c : ℕ) (item m : List ℕ) (entries : List (ℕ × List ℕ))
    → find_feature c entries ≡ some m
    → Discovery.emplace c item entries ≡ entries
unfolding Discovery.emplace
emplace-old c item m entries e = rw (Discovery.emplace, e)

-- An entry that is there stays, and the new code has one afterwards.
emplace-keeps :
    (code c : ℕ) (item : List ℕ) (entries : List (ℕ × List ℕ))
    → IsPresent code entries
    → IsPresent code (Discovery.emplace c item entries)
unfolding IsPresent
emplace-keeps code c item entries (m, here) = elim (Option-cases (find_feature c entries)) [
  | inl new ↦ (
    m,
    ap (find_feature code) (emplace-new c item entries new)
        ∙ find-append code c item m entries here,
  )
  | inr (x, old) ↦ (m, ap (find_feature code) (emplace-old c item x entries old) ∙ here)
]

emplace-adds :
    (c : ℕ) (item : List ℕ) (entries : List (ℕ × List ℕ))
    → IsPresent c (Discovery.emplace c item entries)
unfolding IsPresent
emplace-adds c item entries = elim (Option-cases (find_feature c entries)) [
  | inl new ↦
      (item, ap (find_feature c) (emplace-new c item entries new) ∙ find-last c item entries new)
  | inr (x, old) ↦ (x, ap (find_feature c) (emplace-old c item x entries old) ∙ old)
]

-- A flag that a device relies on has its feature behind it.
pub record IsConsistent (i : Discovery.TcgInfo) : Type 0 where
  pub locking : i.tcg_locking ≡ true → IsPresent Types.fc_locking i.tcg_raw_features
  pub opal_v100 : i.tcg_opal_v100 ≡ true → IsPresent Types.fc_opal_ssc_v100 i.tcg_raw_features
  pub opal_v200 : i.tcg_opal_v200 ≡ true → IsPresent Types.fc_opal_ssc_v200 i.tcg_raw_features
  pub enterprise : i.tcg_enterprise ≡ true → IsPresent Types.fc_enterprise i.tcg_raw_features

-- The switch sets a flag for its own code only, and leaves the features alone.
set_flag_lem :
    (code : ℕ) (i : Discovery.TcgInfo)
    → (let j = Discovery.set_flag code i in
        (j.tcg_raw_features ≡ i.tcg_raw_features)
        × (j.tcg_locking ≡ true → (Types.fc_locking ≡ code) ⊎ (i.tcg_locking ≡ true))
        × (j.tcg_opal_v100 ≡ true → (Types.fc_opal_ssc_v100 ≡ code) ⊎ (i.tcg_opal_v100 ≡ true))
        × (j.tcg_opal_v200 ≡ true → (Types.fc_opal_ssc_v200 ≡ code) ⊎ (i.tcg_opal_v200 ≡ true))
        × (j.tcg_enterprise ≡ true → (Types.fc_enterprise ≡ code) ⊎ (i.tcg_enterprise ≡ true)))
unfolding Discovery.set_flag
set_flag_lem code i = (
  ground arith,
  (λ e. ground arith),
  (λ e. ground arith),
  (λ e. ground arith),
  (λ e. ground arith),
)

-- An entry for `k`, if `code` is that number or there was one before.
present :
    (k code : ℕ) (item : List ℕ) (entries : List (ℕ × List ℕ)) {P : Type 0}
    → ((k ≡ code) ⊎ P)
    → (P → IsPresent k entries)
    → IsPresent k (Discovery.emplace code item entries)
present k code item entries (inl same) before =
    subst (λ c. IsPresent c (Discovery.emplace code item entries)) (sym same)
      (emplace-adds code item entries)
present k code item entries (inr p) before = emplace-keeps k code item entries (before p)

add_feature-IsConsistent :
    (code : ℕ) (item : List ℕ) (i : Discovery.TcgInfo)
    → IsConsistent i
    → IsConsistent (Discovery.add_feature code item i)
add_feature-IsConsistent code item i h =
    let (raw, locking, v100, v200, enterprise) = set_flag_lem code i in
    let moved = λ (k : ℕ) (p : IsPresent k i.tcg_raw_features). subst (IsPresent k) (sym raw) p in
    record {
      locking = λ e. present 0x0002 code item _ (locking e) (λ f. moved 0x0002 (h.locking f));
      opal_v100 = λ e. present 0x0200 code item _ (v100 e) (λ f. moved 0x0200 (h.opal_v100 f));
      opal_v200 = λ e. present 0x0203 code item _ (v200 e) (λ f. moved 0x0203 (h.opal_v200 f));
      enterprise =
          λ e. present 0x0100 code item _ (enterprise e) (λ f. moved 0x0100 (h.enterprise f));
    }

walk-IsConsistent :
    (left fuel : ℕ) (m : List ℕ) (i j : Discovery.TcgInfo)
    → IsConsistent i
    → Discovery.walk left fuel m i ≡ done j
    → IsConsistent j
unfolding Discovery.walk
walk-IsConsistent zero fuel m i j h e = subst IsConsistent (done-injective e) h
walk-IsConsistent (suc left) zero m i j h e = cc
walk-IsConsistent (suc left) (suc fuel) m i j h e = >>=-elim (read m 0) _ e (λ a ra e1.
    >>=-elim (read m 1) _ e1 (λ b rb e2. >>=-elim (read m 3) _ e2 (λ n rn e3.
      >>=-elim (read_bytes (n + 4) m) _ e3 (λ item ri e4.
        walk-IsConsistent (suc left - (n + 4)) fuel (drop (n + 4) m)
          (Discovery.add_feature (swap16 (a + b * 2 ^ 8)) item i) j
          (add_feature-IsConsistent (swap16 (a + b * 2 ^ 8)) item i h) e4))))

support-IsConsistent :
    (s : Discovery.TcgSupport) (i : Discovery.TcgInfo)
    → IsConsistent i
    → IsConsistent (record i { tcg_support = s })
support-IsConsistent s i h = record {
  locking = h.locking;
  opal_v100 = h.opal_v100;
  opal_v200 = h.opal_v200;
  enterprise = h.enterprise;
}

read_features-IsConsistent :
    (dr r : DparmResult) (m : List ℕ) (i j : Discovery.TcgInfo)
    → IsConsistent i
    → Discovery.read_features dr m i ≡ done (r, j)
    → IsConsistent j
unfolding Discovery.read_features
read_features-IsConsistent dr r m i j h e =
    let h' = support-IsConsistent Discovery.supported i h in
    >>=-elim (host_u32 m 0) _ e (λ raw here more.
      elim (if-cases (ltb (length m) (swap32 raw)) _ _ _ more) [
        | inl (long, same) ↦ subst IsConsistent (ap (λ x. x.1) (done-injective same)) h'
        | inr (fits, rest) ↦
            let left = swap32 raw - Discovery.discovery0_header_size in
            >>=-elim (Discovery.walk left left (drop Discovery.discovery0_header_size m) _) _ rest
              (λ k walked same. subst IsConsistent (ap (λ x. x.1) (done-injective same)) (
                walk-IsConsistent left left (drop Discovery.discovery0_header_size m) _ k h'
                  walked))
      ])

-- A discovery that returns keeps the flags in agreement with the features, on each of its branches.
pub tcg_discovery0-IsConsistent :
    {W : Type 0} (handle : Handle W) (room : ℕ) (i j : Discovery.TcgInfo) (w w' : W)
    (d : DparmResult)
    → IsConsistent i
    → Discovery.tcg_discovery0 handle room i w ≡ done (d, j, w')
    → IsConsistent j
unfolding Discovery.tcg_discovery0
tcg_discovery0-IsConsistent handle room i j w w' d h e =
    let got = handle.do_security_command false false 0x01 0x0001 (replicate room 0) 2048 w in
    elim (if-cases (is_ok got.0) _ _ _ e) [
      | inl (good, more) ↦ >>=-elim (Discovery.read_features got.0 got.1 i) _ more (λ x read same.
          subst IsConsistent (ap (λ y. y.1) (done-injective same))
            (read_features-IsConsistent got.0 x.0 got.1 i x.1 h read))
      | inr (bad, same) ↦
          subst IsConsistent (ap (λ y. y.1) (done-injective same)) (support-IsConsistent _ i h)
    ]

-- The feature that the com id getters of a class look up.
abbrev pub com_id_features : TcgDeviceType → List ℕ
com_id_features TcgDeviceType.generic_device = []
com_id_features TcgDeviceType.opal_v1_device = Types.fc_opal_ssc_v100 ∷ []
com_id_features TcgDeviceType.opal_v2_device = Types.fc_opal_ssc_v200 ∷ []
com_id_features TcgDeviceType.opal_enterprise_device = Types.fc_enterprise ∷ []

abbrev Found : Discovery.TcgInfo → TcgDeviceType → Type 0
Found i class = All (λ code. IsPresent code i.tcg_raw_features) (com_id_features class)

class_features :
    (i : Discovery.TcgInfo) (class : TcgDeviceType)
    → IsConsistent i
    → Discovery.chosen_class i ≡ class
    → All (λ code. IsPresent code i.tcg_raw_features) (com_id_features class)
unfolding Discovery.chosen_class
class_features i class h e = elim (if-cases i.tcg_opal_v200 _ _ _ e) [
  | inl (v200, same) ↦ subst (Found i) same (h.opal_v200 v200, tt)
  | inr (n, e1) ↦ elim (if-cases i.tcg_opal_v100 _ _ _ e1) [
    | inl (v100, same) ↦ subst (Found i) same (h.opal_v100 v100, tt)
    | inr (n', e2) ↦ elim (if-cases i.tcg_enterprise _ _ _ e2) [
      | inl (ent, same) ↦ subst (Found i) same (h.enterprise ent, tt)
      | inr (n'', same) ↦ subst (Found i) same tt
    ]
  ]
]

pub no_info-IsConsistent : IsConsistent Discovery.no_info
no_info-IsConsistent = record {
  locking = λ e. cc;
  opal_v100 = λ e. cc;
  opal_v200 = λ e. cc;
  enterprise = λ e. cc;
}

-- After a discovery on a new drive info, the device that is selected has the feature that its com id
-- getters look up, and with the locking flag there is a locking feature: no `assert` on a missing
-- feature fails.
pub device_of-IsPresent :
    {W : Type 0} (handle : Handle W) (room : ℕ) (i : Discovery.TcgInfo) (w w' : W) (d : DparmResult)
    (class : TcgDeviceType)
    → Discovery.tcg_discovery0 handle room Discovery.no_info w ≡ done (d, i, w')
    → Discovery.device_class i ≡ some class
    → All (λ code. IsPresent code i.tcg_raw_features) (com_id_features class)
      × (i.tcg_locking ≡ true → IsPresent Types.fc_locking i.tcg_raw_features)
unfolding Discovery.device_class
device_of-IsPresent handle room i w w' d class e chosen =
    let h =
      tcg_discovery0-IsConsistent handle room Discovery.no_info i w w' d no_info-IsConsistent e in
    (class_features i class h (ground arith), h.locking)

walk-ne-stuck :
    (left fuel : ℕ) (m : List ℕ) (i : Discovery.TcgInfo)
    → left ≤ fuel
    → Discovery.walk left fuel m i ≢ stuck
unfolding Discovery.walk
walk-ne-stuck zero fuel m i h = done-ne-stuck i
walk-ne-stuck (suc left) zero m i h = absurd (omega arith)
walk-ne-stuck (suc left) (suc fuel) m i h = bind-ne-stuck (read m 0) _ (read-ne-stuck m 0) (λ a.
    bind-ne-stuck (read m 1) _ (read-ne-stuck m 1) (λ b.
      bind-ne-stuck (read m 3) _ (read-ne-stuck m 3) (λ n.
        bind-ne-stuck (read_bytes (n + 4) m) _ (read_bytes-ne-stuck (n + 4) m) (λ item.
          walk-ne-stuck (suc left - (n + 4)) fuel (drop (n + 4) m)
            (Discovery.add_feature (swap16 (a + b * 2 ^ 8)) item i) (omega arith)))))

-- The discovery ends for every answer of the drive: each feature takes four bytes at least.
pub tcg_discovery0-ne-stuck :
    {W : Type 0} (handle : Handle W) (room : ℕ) (i : Discovery.TcgInfo) (w : W)
    → Discovery.tcg_discovery0 handle room i w ≢ stuck
unfolding Discovery.tcg_discovery0 Discovery.read_features
tcg_discovery0-ne-stuck handle room i w =
    let got = handle.do_security_command false false 0x01 0x0001 (replicate room 0) 2048 w in
    if-ne-stuck (is_ok got.0) _ _
      (λ good.
        bind-ne-stuck _ _
          (bind-ne-stuck (host_u32 got.1 0) _ (host_u32-ne-stuck got.1 0) (λ raw.
            if-ne-stuck (ltb (length got.1) (swap32 raw)) _ _ (λ long. done-ne-stuck _)
              (λ fits.
                let left = swap32 raw - Discovery.discovery0_header_size in
                bind-ne-stuck
                  (Discovery.walk left left (drop Discovery.discovery0_header_size got.1) _) _
                  (walk-ne-stuck left left (drop Discovery.discovery0_header_size got.1) _
                    (omega arith))
                  (λ j. done-ne-stuck _))))
          (λ x. done-ne-stuck _))
      (λ bad. done-ne-stuck _)

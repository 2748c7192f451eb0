-- ===== src/Drive/Factory/Handles.antt =====
-- Which handles of the system a factory leaves open.
use jcu_dparm.Common.{ℕ, suc, ◌≡◌, refl, ap, sym, ◌∙◌, List, [], ◌∷◌, ◌++◌, All}
use jcu_dparm.Common.{Bool, true, false, Option, none, some, if◌then◌else◌, Outcome, done, ◌==◌}
use jcu_dparm.Common.{>>=-elim, done-injective, if-cases, inl, inr, on_pointer-elim}
use jcu_dparm.Common.{
  Bool-cases, Option-cases, append_assoc, replicate, length, length-append, arith,
}
use jcu_dparm.Err.{DparmResult, DparmReturn, is_ok, returning, success}
use jcu_dparm.Tcg.Types.{min_buffer_length}
use jcu_dparm.Drive.Discovery.{TcgInfo, tcg_discovery0, read_features, no_info}
use jcu_dparm.Drive.Identify.{DriveInfo, DriveCalls, after_open, identify_drive}
use jcu_dparm.Drive.Identify.{is_empty_text, parse_identify_device}
use jcu_dparm.Drive.Factory.{OpenInfo, DriveHandle, is_some, is_open, first_ok}
use jcu_dparm.Drive.Factory.{open_drive, close_drive, enum_paths}

-- The open handles of the system, the newest first, without the newest one that is `h`.
unfoldable pub remove : ℕ → List ℕ → List ℕ
remove h [] = []
remove h (x ∷ xs) = let rest = remove h xs in if h == x then xs else x ∷ rest

pub remove_head : (h : ℕ) (xs : List ℕ) → remove h (h ∷ xs) ≡ xs
unfolding remove
remove_head h xs = let same : (h == h) ≡ true = ground arith in rw same refl

abbrev pub held : {H : Type 0} → (H → ℕ) → Option H → List ℕ
held handle_of none = []
held handle_of (some h) = handle_of h ∷ []

-- The drives that could be opened.
abbrev pub count_ok : List OpenInfo → ℕ
count_ok [] = 0
count_ok (i ∷ is) = if is_ok i.open_result then suc (count_ok is) else count_ok is

module _ {W H : Type 0} (opened : W → List ℕ) (handle_of : H → ℕ) where
  -- An attempt to open adds the handle that it returns, and returns one exactly with a good result.
  pub record IsSettled (w : W) (r : DparmReturn (Option H) × W) : Type 0 where
    pub counted : opened r.1 ≡ held handle_of r.0.value ++ opened w
    pub answered : is_ok r.0.result ≡ is_some r.0.value

  held_none : (o : Option H) (xs : List ℕ) → is_some o ≡ false → held handle_of o ++ xs ≡ xs
  held_none none xs e = refl
  held_none (some h) xs e = absurd cc

  first_ok_step :
      (d : W → DparmReturn (Option H) × W) (ds : List (W → DparmReturn (Option H) × W))
      (last : DparmReturn (Option H)) (w : W)
      → IsSettled w (d w)
      → (is_ok (d w).0.result ≡ false
          → is_some (d w).0.value ≡ false
          → IsSettled (d w).1 (first_ok ds (d w).0 (d w).1))
      → IsSettled w (first_ok (d ∷ ds) last w)
  unfolding first_ok
  first_ok_step d ds last w this more = elim (Bool-cases (is_ok (d w).0.result)) [
    | inl good ↦ rw good this
    | inr failed ↦
        let nothing : is_some (d w).0.value ≡ false = sym this.answered ∙ failed in
        let rest = more failed nothing in
        let kept : opened (d w).1 ≡ opened w =
          this.counted ∙ held_none (d w).0.value (opened w) nothing in
        rw failed (record {
          counted =
              rest.counted
              ∙ ap (λ t. held handle_of (first_ok ds (d w).0 (d w).1).0.value ++ t) kept;
          answered = rest.answered;
        })
  ]

  first_ok-IsSettled :
      (ds : List (W → DparmReturn (Option H) × W)) (last : DparmReturn (Option H)) (w : W)
      → is_ok last.result ≡ false
      → is_some last.value ≡ false
      → All (λ d. (w : W) → IsSettled w (d w)) ds
      → IsSettled w (first_ok ds last w)
  unfolding first_ok
  first_ok-IsSettled [] last w bad empty each = record {
    counted = sym (held_none last.value (opened w) empty);
    answered = bad ∙ sym empty;
  }
  first_ok-IsSettled (d ∷ ds) last w bad empty each =
      first_ok_step d ds last w (each.0 w)
        (λ failed nothing. first_ok-IsSettled ds (d w).0 (d w).1 failed nothing each.1)

-- The inquiry of a drive and the security command of its discovery open and close no handle.
pub record IsQuiet {W : Type 0} (opened : W → List ℕ) (calls : DriveCalls W) : Type 0 where
  pub inquired : (w : W) → opened (calls.driver.inquiry_device_info w).1 ≡ opened w
  pub commanded :
      (send dma : Bool) (protocol com_id : ℕ) (buffer : List ℕ) (n : ℕ) (w : W)
      → opened (calls.handle.do_security_command send dma protocol com_id buffer n w).2 ≡ opened w

module _ {W : Type 0} (opened : W → List ℕ) (calls : DriveCalls W)
    (quiet : IsQuiet opened calls) where
  identify_drive-opened :
      (i : DriveInfo) (w : W) (p : DriveInfo × W)
      → identify_drive calls.driver i w ≡ done p
      → opened p.1 ≡ opened w
  unfolding identify_drive
  identify_drive-opened i w p e =
      >>=-elim
        (parse_identify_device calls.driver (record i { driving_type = calls.driver.driving_type }))
        _ e
        (λ parsed e' more. elim (if-cases (is_empty_text calls.driver parsed.1.serial) _ _ _ more) [
          | inl (empty, asked) ↦
              let res = calls.driver.inquiry_device_info w in
              elim (if-cases (is_ok res.0.result) _ _ _ asked) [
                | inl (good, same) ↦
                    ap (λ t. opened t.1) (sym (done-injective same)) ∙ quiet.inquired w
                | inr (bad, same) ↦
                    ap (λ t. opened t.1) (sym (done-injective same)) ∙ quiet.inquired w
              ]
          | inr (named, same) ↦ ap (λ t. opened t.1) (sym (done-injective same))
        ])

  tcg_discovery0-opened :
      (room : ℕ) (i : TcgInfo) (w : W) (d : DparmResult × TcgInfo × W)
      → tcg_discovery0 calls.handle room i w ≡ done d
      → opened d.2 ≡ opened w
  unfolding tcg_discovery0
  tcg_discovery0-opened room i w d e =
      let asked =
        calls.handle.do_security_command false false 0x01 0x0001 (replicate room 0)
          min_buffer_length w in
      let kept = quiet.commanded false false 0x01 0x0001 (replicate room 0) min_buffer_length w in
      elim (if-cases (is_ok asked.0) _ _ _ e) [
        | inl (good, more) ↦
            >>=-elim (read_features asked.0 asked.1 i) _ more
              (λ r through same. ap (λ t. opened t.2) (sym (done-injective same)) ∙ kept)
        | inr (bad, same) ↦ ap (λ t. opened t.2) (sym (done-injective same)) ∙ kept
      ]

  after_open-opened :
      (i : DriveInfo) (t : TcgInfo) (w : W) (p : DriveInfo × TcgInfo × W)
      → after_open calls i t w ≡ done p
      → opened p.2 ≡ opened w
  unfolding after_open
  after_open-opened i t w p e = >>=-elim (identify_drive calls.driver i w) _ e (λ q named more.
      >>=-elim (tcg_discovery0 calls.handle calls.room t q.1) _ more (λ d discovered same.
        ap (λ t. opened t.2) (sym (done-injective same))
        ∙ tcg_discovery0-opened calls.room t q.1 d discovered
        ∙ identify_drive-opened i w q named))

-- A drive handle that came from `w`.
abbrev pub Opens : {W H : Type 0} → (W → List ℕ) → (H → ℕ) → W → W → DriveHandle H → Type 0
Opens opened handle_of w w' h =
    (opened w' ≡ held handle_of h.handle ++ opened w)
    × (is_ok h.last_error ≡ is_open h)
    × (h.drive_info.open_result ≡ h.last_error)

module _ {W H : Type 0} (opened : W → List ℕ) (handle_of : H → ℕ) (calls : H → DriveCalls W)
    (quiet : (x : H) → IsQuiet opened (calls x)) (d : W → DparmReturn (Option H) × W)
    (ds : List (W → DparmReturn (Option H) × W))
    (each : All (λ d. (w : W) → IsSettled opened handle_of w (d w)) (d ∷ ds)) where
  chosen : (w : W) → IsSettled opened handle_of w (first_ok (d ∷ ds) (returning success none) w)
  chosen w = first_ok_step opened handle_of d ds _ w (each.0 w) (λ failed nothing.
      first_ok-IsSettled opened handle_of ds (d w).0 (d w).1 failed nothing each.1)

  -- An attempt to open a drive adds the handle of the drive handle if its result is good, and none
  -- otherwise; the drive handle is open exactly with a good result.
  pub open_drive-opened :
      (blank : DriveInfo) (w w' : W) (h : DriveHandle H)
      → open_drive (d ∷ ds) calls blank w ≡ done (h, w')
      → Opens opened handle_of w w' h
  unfolding open_drive
  open_drive-opened blank w w' h e =
      let tried = first_ok (d ∷ ds) (returning success none) w in
      let settled = chosen w in
      elim (if-cases (is_ok tried.0.result) _ _ _ e) [
        | inl (good, more) ↦
            on_pointer-elim tried.0.value _ _ more (λ null f. absurd cc)
              (λ x here f. >>=-elim (after_open (calls x) blank no_info tried.1) _ f (λ p read last.
                let same = done-injective last in
                (
                  ap (λ t. opened t.1) (sym same)
                      ∙ after_open-opened opened (calls x) (quiet x) blank no_info tried.1 p read
                      ∙ settled.counted
                      ∙ ap (λ t. held handle_of t ++ opened w) here
                      ∙ ap (λ t. held handle_of t.0.handle ++ opened w) same,
                  ap (λ t. is_ok t.0.last_error) (sym same) ∙ good ∙ ap (λ t. is_open t.0) same,
                  ap (λ t. t.0.drive_info.open_result) (sym same) ∙ ap (λ t. t.0.last_error) same,
                )))
        | inr (bad, last) ↦
            let same = done-injective last in
            (
              ap (λ t. opened t.1) (sym same)
                  ∙ settled.counted
                  ∙ ap (λ t. held handle_of t.0.handle ++ opened w) same,
              ap (λ t. is_ok t.0.last_error) (sym same)
                  ∙ settled.answered
                  ∙ ap (λ t. is_open t.0) same,
              ap (λ t. t.0.drive_info.open_result) (sym same) ∙ ap (λ t. t.0.last_error) same,
            )
      ]

  -- Whichever driver takes a drive and whatever the drive answers, a drive handle that is opened
  -- and closed leaves the very handles of the system open that were, is not open, and is closed
  -- again without effect.
  pub close_drive-open_drive :
      (closer : H → W → W)
      → ((x : H) (w : W) → opened (closer x w) ≡ remove (handle_of x) (opened w))
      → (blank : DriveInfo) (w w' : W) (h : DriveHandle H)
      → open_drive (d ∷ ds) calls blank w ≡ done (h, w')
      → (opened (close_drive closer h w').1 ≡ opened w)
        × (is_open (close_drive closer h w').0 ≡ false)
        × (close_drive closer (close_drive closer h w').0 (close_drive closer h w').1
            ≡ close_drive closer h w')
  unfolding close_drive
  close_drive-open_drive closer closed blank w w' h e =
      let counted = (open_drive-opened blank w w' h e).0 in
      elim (Option-cases h.handle) [
        | inl null ↦ (
          rw null (counted ∙ ap (λ t. held handle_of t ++ opened w) null),
          rw null refl,
          rw null refl,
        )
        | inr (x, here) ↦
            let one : opened w' ≡ handle_of x ∷ opened w =
              counted ∙ ap (λ t. held handle_of t ++ opened w) here in
            (
              rw here (
                  closed x w'
                  ∙ ap (remove (handle_of x)) one
                  ∙ remove_head (handle_of x) (opened w)),
              rw here refl,
              rw here refl,
            )
      ]

module _ {W H : Type 0} (opened : W → List ℕ) (handle_of : H → ℕ)
    (open_at : List ℕ → W → Outcome (DriveHandle H × W))
    (opens : (p : List ℕ) (w w' : W) (h : DriveHandle H)
      → open_at p w ≡ done (h, w')
      → Opens opened handle_of w w' h) where
  -- The handles `leaked` are open that were not, as many as there are drives that could be opened.
  abbrev pub Leaks : W → W → List OpenInfo → Type 0
  Leaks w w' infos =
      (leaked : List ℕ) × (opened w' ≡ leaked ++ opened w) × (length leaked ≡ count_ok infos)

  length-held :
      (h : DriveHandle H) (infos : List OpenInfo) (leaked : List ℕ)
      → is_ok h.drive_info.open_result ≡ is_open h
      → length leaked ≡ count_ok infos
      → length (leaked ++ held handle_of h.handle) ≡ count_ok (h.drive_info ∷ infos)
  length-held h infos leaked same size = elim (Option-cases h.handle) [
    | inl null ↦
        let bad = same ∙ ap is_some null in
        let sum = length-append leaked (held handle_of none) in
        ap (λ t. length (leaked ++ held handle_of t)) null ∙ rw bad (omega (arith, sum, size))
    | inr (x, here) ↦
        let good = same ∙ ap is_some here in
        let sum = length-append leaked (held handle_of (some x)) in
        ap (λ t. length (leaked ++ held handle_of t)) here ∙ rw good (omega (arith, sum, size))
  ]

  -- `enumDrives` never closes what it opens: each drive that could be opened leaves a handle of the
  -- system behind.
  pub enum_paths-opened :
      (ps : List (List ℕ)) (w w' : W) (infos : List OpenInfo)
      → enum_paths open_at ps w ≡ done (infos, w')
      → Leaks w w' infos
  unfolding enum_paths
  enum_paths-opened [] w w' infos e =
      let same = done-injective e in
      ([], ap (λ t. opened t.1) (sym same), ap (λ t. count_ok t.0) same)
  enum_paths-opened (p ∷ ps) w w' infos e = >>=-elim (open_at p w) _ e (λ h first more.
      >>=-elim (enum_paths open_at ps h.1) _ more (λ rest later last.
        let same = done-injective last in
        let (counted, agreed, recorded) = opens p w h.1 h.0 first in
        let (leaked, left, size) = enum_paths-opened ps h.1 rest.1 rest.0 later in
        (
          leaked ++ held handle_of h.0.handle,
          ap (λ t. opened t.1) (sym same)
              ∙ left
              ∙ ap (λ t. leaked ++ t) counted
              ∙ sym (append_assoc leaked (held handle_of h.0.handle) (opened w)),
          length-held h.0 rest.0 leaked (ap is_ok recorded ∙ agreed) size
              ∙ ap (λ t. count_ok t.0) same,
        )))

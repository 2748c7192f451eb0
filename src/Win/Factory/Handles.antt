-- ===== src/Win/Factory/Handles.antt =====
-- The handles of the system that the drivers for Windows leave open.
use jcu_dparm.Common.{ℕ, ◌≡◌, refl, ap, sym, ◌∙◌, List, [], ◌∷◌, ◌++◌, length, All, Bool}
use jcu_dparm.Common.{true, false, Option, none, some, if◌then◌else◌, done, Bool-cases}
use jcu_dparm.Common.{inl, inr, replicate}
use jcu_dparm.Err.{DparmResult, DparmReturn, is_ok}
use jcu_dparm.Ata.{Tf, zero_tf}
use jcu_dparm.Drive.Driver.{NvmeAdminCmd}
use jcu_dparm.Drive.Identify.{DriveInfo, DriveCalls}
use jcu_dparm.Drive.Factory.{DriveHandle, OpenInfo, is_open, close_drive, enum_paths}
use jcu_dparm.Drive.Factory.Handles.{IsSettled, IsQuiet, count_ok, remove, remove_head, held}
use jcu_dparm.Drive.Factory.Handles.{close_drive-open_drive}
use jcu_dparm.Drive.Factory.Handles.{enum_paths-opened, open_drive-opened}
use jcu_dparm.Win.Handle.{FileResult, file_failed, file_opened, WinHandle, open_identified}
use jcu_dparm.Win.Handle.{opened_or_closed, identified}
use jcu_dparm.Win.Ata.{AtaParams, zeroed, has_error, ata_params, buffered_round}
use jcu_dparm.Win.Ata.{do_taskfile_cmd_impl, ata_identify, open_ata}
use jcu_dparm.Win.Scsi.{ScsiParams, pass, scsi_taskfile_cmd, scsi_identify, open_scsi}
use jcu_dparm.Win.Nvme.{StorageQuery, Reply, answered, refused, get_scsi_path}
use jcu_dparm.Win.Nvme.{
  asked, adapter_of, on_adapter, first_buffer, queried_buffer, miniport_identify, query_identify,
}
use jcu_dparm.Win.Nvme.{open_nvme_win, open_samsung, open_windows_nvme}
use jcu_dparm.Win.Factory.{WinCalls, win_drivers, open_win, close_win, disk_path, enum_drives_win}
use jcu_dparm.Win.Drives.{DiskAnswers, enum_physical_drives, physical_drives, physical_drive}
use jcu_dparm.Win.Drives.{with_file, with_detail}
use jcu_dparm.Common.{map, if-cases, ◌==◌, >>=-elim, done-injective}

abbrev pub new_handle : FileResult → List ℕ
new_handle (file_failed e) = []
new_handle (file_opened h) = h ∷ []

abbrev pub handle_of : WinHandle → ℕ
handle_of x = x.handle

-- Which handles the calls of the system leave open: opening a file adds its handle, closing takes
-- the very handle away, and the others leave them alone.
pub record IsCounted {W : Type 0} (os : WinCalls W) (opened : W → List ℕ) : Type 0 where
  pub created :
      (path : List ℕ) (w : W)
      → opened (os.files.create_file path w).1
        ≡ new_handle (os.files.create_file path w).0 ++ opened w
  pub closed : (h : ℕ) (w : W) → opened (os.files.close_handle h w) ≡ remove h (opened w)
  pub ata_direct :
      (h : ℕ) (p : AtaParams) (d : Option (List ℕ)) (w : W)
      → opened (os.ata.pass_through_direct h p d w).2 ≡ opened w
  pub ata_buffered :
      (h : ℕ) (p : AtaParams) (d : List ℕ) (w : W)
      → opened (os.ata.pass_through h p d w).2 ≡ opened w
  pub scsi_direct :
      (h : ℕ) (p : ScsiParams) (d : Option (List ℕ)) (w : W)
      → opened (os.scsi.pass_through_direct h p d w).2 ≡ opened w
  pub scsi_buffered :
      (h : ℕ) (p : ScsiParams) (d : List ℕ) (w : W)
      → opened (os.scsi.pass_through h p d w).2 ≡ opened w
  pub miniport :
      (h : ℕ) (c : NvmeAdminCmd) (w : W) → opened (os.nvme.scsi_miniport h c w).1 ≡ opened w
  pub queried :
      (h : ℕ) (q : StorageQuery) (w : W) → opened (os.nvme.query_property h q w).1 ≡ opened w
  pub addressed : (h : ℕ) (w : W) → opened (os.nvme.get_address h w).1 ≡ opened w
  pub numbered : (h : ℕ) (w : W) → opened (os.device_number h w).1 ≡ opened w

module _ {W : Type 0} (os : WinCalls W) (opened : W → List ℕ) (counts : IsCounted os opened) where
  opened_or_closed-IsSettled :
      (path : List ℕ) (h : ℕ) (w : W) (t : DparmResult × List ℕ × W)
      → opened t.2 ≡ h ∷ opened w
      → IsSettled opened handle_of w (opened_or_closed os.files path h t)
  opened_or_closed-IsSettled path h w (r, bytes, w') e = elim (Bool-cases (is_ok r)) [
    | inl good ↦ rw good (record { counted = e; answered = refl })
    | inr bad ↦ rw bad (record {
      counted = counts.closed h w' ∙ ap (remove h) e ∙ remove_head h (opened w);
      answered = bad;
    })
  ]

  -- A driver that opens a file and identifies the drive behind it.
  open_identified-IsSettled :
      (identify : ℕ → W → DparmResult × List ℕ × W)
      → ((h : ℕ) (w : W) → opened (identify h w).2 ≡ opened w)
      → (path file : List ℕ) (w : W)
      → IsSettled opened handle_of w (open_identified os.files identify path file w)
  unfolding open_identified
  open_identified-IsSettled identify kept path file w =
      of_file (os.files.create_file file w) (counts.created file w)
    where
      of_file :
          (f : FileResult × W)
          → opened f.1 ≡ new_handle f.0 ++ opened w
          → IsSettled opened handle_of w (identified os.files identify path f)
      of_file (file_failed e, w') c = record { counted = c; answered = refl }
      of_file (file_opened h, w') c =
          opened_or_closed-IsSettled path h w (identify h w') (kept h w' ∙ c)

  kept_by_both :
      {A B : Type 0} (b : Bool) (x y : A × B × W) (n : List ℕ)
      → opened x.2 ≡ n
      → opened y.2 ≡ n
      → opened (if b then x else y).2 ≡ n
  kept_by_both true x y n h k = h
  kept_by_both false x y n h k = k

  do_taskfile_cmd_impl-opened :
      (h : ℕ) (write : Bool) (tf : Tf) (d : Option (List ℕ)) (n t : ℕ) (w : W)
      → opened (do_taskfile_cmd_impl os.ata h write tf d n t w).2 ≡ opened w
  unfolding do_taskfile_cmd_impl buffered_round
  do_taskfile_cmd_impl-opened h write tf d n t w =
      let params = ata_params write tf n t in
      let direct = os.ata.pass_through_direct h params (zeroed write n d) w in
      let first = counts.ata_direct h params (zeroed write n d) w in
      kept_by_both (has_error direct.0.current_task_file) _ _ (opened w) first (
        kept_by_both direct.0.is_success _ _ (opened w) first (
          kept_by_both (has_error params.current_task_file) _ _ (opened w)
            (counts.ata_buffered h params _ direct.2 ∙ first)
            (counts.ata_buffered h params _ direct.2 ∙ first)))

  pass-opened :
      (h : ℕ) (write : Bool) (params : ScsiParams) (d : Option (List ℕ)) (w : W)
      → opened (pass os.scsi h write params d w).2 ≡ opened w
  unfolding pass
  pass-opened h write params d w =
      let sent = zeroed write params.data_transfer_length d in
      let first = counts.scsi_direct h params sent w in
      kept_by_both (os.scsi.pass_through_direct h params sent w).0.is_success _ _ (opened w) first
        (counts.scsi_buffered h params _ (os.scsi.pass_through_direct h params sent w).2 ∙ first)

  first_buffer-opened : (t : Reply (List ℕ) × W) → opened (first_buffer t).2 ≡ opened t.1
  first_buffer-opened (refused e, w) = refl
  first_buffer-opened (answered b, w) = refl

  queried_buffer-opened : (t : Reply (ℕ × List ℕ) × W) → opened (queried_buffer t).2 ≡ opened t.1
  queried_buffer-opened (refused e, w) = refl
  queried_buffer-opened (answered (n, b), w) = refl

  -- A handle that was opened last is closed.
  closed-opened :
      (h : ℕ) (w : W) (n : List ℕ) → opened w ≡ h ∷ n → opened (os.files.close_handle h w) ≡ n
  closed-opened h w n c = counts.closed h w ∙ ap (remove h) c ∙ remove_head h n

  adapter_of-opened :
      (h : ℕ) (t : Reply ℕ × W) (n : List ℕ)
      → opened t.1 ≡ h ∷ n
      → opened (adapter_of os.files os.nvme h t).1 ≡ n
  adapter_of-opened h (refused e, w) n c = closed-opened h w n c
  adapter_of-opened h (answered port, w) n c = closed-opened h w n c

  asked-opened :
      (f : FileResult × W) (n : List ℕ)
      → opened f.1 ≡ new_handle f.0 ++ n
      → opened (asked os.files os.nvme f).1 ≡ n
  asked-opened (file_failed e, w) n c = c
  asked-opened (file_opened h, w) n c =
      adapter_of-opened h (os.nvme.get_address h w) n (counts.addressed h w ∙ c)

  with_file-opened :
      (setupapi : List ℕ) (f : FileResult × W) (n : List ℕ)
      → opened f.1 ≡ new_handle f.0 ++ n
      → opened (with_file os.files os.device_number setupapi f).1 ≡ n
  with_file-opened setupapi (file_failed e, w) n c = c
  with_file-opened setupapi (file_opened h, w) n c =
      closed-opened h (os.device_number h w).1 n (counts.numbered h w ∙ c)

  with_detail-opened :
      (detail : Option (List ℕ)) (w : W)
      → opened (with_detail os.files os.device_number detail w).1 ≡ opened w
  with_detail-opened none w = refl
  with_detail-opened (some setupapi) w =
      with_file-opened setupapi (os.files.create_file setupapi w) (opened w)
        (counts.created setupapi w)

  physical_drives-opened :
      (answers : List DiskAnswers) (w : W)
      → opened (physical_drives os.files os.device_number answers w).1 ≡ opened w
  unfolding physical_drives physical_drive
  physical_drives-opened [] w = refl
  physical_drives-opened (a ∷ answers) w =
      physical_drives-opened answers (physical_drive os.files os.device_number a w).1
      ∙ elim (Bool-cases a.has_interface) [
        | inl there ↦ rw there (with_detail-opened a.detail w)
        | inr missing ↦ rw missing refl
      ]

  -- The enumeration closes every file that it opens.
  enum_physical_drives-opened :
      (failure : Option ℕ) (answers : List DiskAnswers) (w : W)
      → opened (enum_physical_drives os.files os.device_number failure answers w).2 ≡ opened w
  unfolding enum_physical_drives
  enum_physical_drives-opened none answers w = physical_drives-opened answers w
  enum_physical_drives-opened (some e) answers w = refl

  on_adapter-IsSettled :
      (path : List ℕ) (t : Reply (List ℕ) × W) (w : W)
      → opened t.1 ≡ opened w
      → IsSettled opened handle_of w (on_adapter os.files os.nvme path t)
  on_adapter-IsSettled path (refused e, w') w same = record { counted = same; answered = refl }
  on_adapter-IsSettled path (answered file, w') w same =
      let tried = open_identified os.files (miniport_identify os.files os.nvme) path file w' in
      let settled =
        open_identified-IsSettled (miniport_identify os.files os.nvme)
          (λ h v. first_buffer-opened _ ∙ counts.miniport h _ v) path file w' in
      record {
        counted = settled.counted ∙ ap (λ t. held handle_of tried.0.value ++ t) same;
        answered = settled.answered;
      }

  win_drivers-IsSettled :
      (path : List ℕ)
      → All (λ d. (w : W) → IsSettled opened handle_of w (d w)) (win_drivers os path)
  unfolding win_drivers open_nvme_win open_samsung open_windows_nvme open_scsi open_ata
      get_scsi_path scsi_identify scsi_taskfile_cmd ata_identify
  win_drivers-IsSettled path = (
    λ w.
        on_adapter-IsSettled path _ w
          (asked-opened (os.files.create_file path w) (opened w) (counts.created path w)),
    (
      λ w. record { counted = refl; answered = refl },
      (
        open_identified-IsSettled (query_identify os.files os.nvme)
            (λ h v. queried_buffer-opened _ ∙ counts.queried h _ v) path path,
        (
          open_identified-IsSettled (scsi_identify os.files os.scsi)
              (λ h v. pass-opened h false _ (some (replicate 512 0)) v) path path,
          (
            open_identified-IsSettled (ata_identify os.files os.ata)
                (λ h v.
                  do_taskfile_cmd_impl-opened h false (record zero_tf { command = 0xec })
                    (some (replicate 512 0)) 512 3 v)
                path path,
            tt,
          ),
        ),
      ),
    ),
  )

module _ {W : Type 0} (os : WinCalls W) (opened : W → List ℕ) (counts : IsCounted os opened)
    (calls : WinHandle → DriveCalls W) (quiet : (x : WinHandle) → IsQuiet opened (calls x)) where
  -- The drivers that are tried after the first one.
  abbrev behind_first : List ℕ → List (W → DparmReturn (Option WinHandle) × W)
  behind_first path =
      open_samsung path
      ∷ open_windows_nvme os.files os.nvme path
      ∷ open_scsi os.files os.scsi path
      ∷ open_ata os.files os.ata path
      ∷ []

  -- Whichever driver takes a drive and whatever the system answers, a drive that is opened and
  -- closed on Windows leaves the very handles open that were, the drive handle is not open any
  -- more, and closing it again does nothing. The inquiry of a drive and the security command of its
  -- discovery open and close no handle.
  pub close_drive-open_win :
      (blank : DriveInfo) (path : List ℕ) (w w' : W) (h : DriveHandle WinHandle)
      → open_win os calls blank path w ≡ done (h, w')
      → (let closed = close_drive (close_win os) h w' in
          (opened closed.1 ≡ opened w)
          × (is_open closed.0 ≡ false)
          × (close_drive (close_win os) closed.0 closed.1 ≡ closed))
  unfolding open_win win_drivers
  close_drive-open_win blank path w w' h e =
      close_drive-open_drive opened handle_of calls quiet _ (behind_first path)
        (win_drivers-IsSettled os opened counts path) (close_win os)
        (λ x v. counts.closed x.handle v) blank w w' h e

  -- The enumeration of the drives closes the files by which it numbers them, and none of the drives:
  -- it leaves a handle open for each drive that could be opened, and no other one, on top of those
  -- that were open.
  pub enum_drives_win-opened :
      (blank : List ℕ → DriveInfo) (failure : Option ℕ) (answers : List DiskAnswers) (w w' : W)
      (rc : ℕ) (infos : List OpenInfo)
      → enum_drives_win os calls blank failure answers w ≡ done (rc, infos, w')
      → (leaked : List ℕ) × (opened w' ≡ leaked ++ opened w) × (length leaked ≡ count_ok infos)
  unfolding enum_drives_win open_win win_drivers
  enum_drives_win-opened blank failure answers w w' rc infos e =
      let listed = enum_physical_drives os.files os.device_number failure answers w in
      let kept = enum_physical_drives-opened os opened counts failure answers w in
      elim (if-cases (listed.0 == 0) _ _ _ e) [
        | inl (good, more) ↦
            >>=-elim
              (enum_paths (λ p. open_win os calls (blank p) p) (map disk_path listed.1) listed.2) _
              more
              (λ r through last.
                let same = done-injective last in
                let (leaked, left, size) =
                  enum_paths-opened opened handle_of _
                    (λ p v v' h.
                      open_drive-opened opened handle_of calls quiet _ (behind_first p)
                        (win_drivers-IsSettled os opened counts p) (blank p) v v' h)
                    (map disk_path listed.1) listed.2 r.1 r.0 through in
                (
                  leaked,
                  ap (λ t. opened t.2) (sym same) ∙ left ∙ ap (λ t. leaked ++ t) kept,
                  size ∙ ap (λ t. count_ok t.1) same,
                ))
        | inr (bad, last) ↦
            let same = done-injective last in
            ([], ap (λ t. opened t.2) (sym same) ∙ kept, ap (λ t. count_ok t.1) same)
      ]

-- ===== src/Linux/Volumes.antt =====
-- src/plat-linux/volume_finder.cc: the volumes of /proc/mounts. The lines that `fgets` returns are
-- an argument; a text is the list of its bytes. The entries of the map are kept in the order in
-- which their devices came in, and are put in the order of their keys where the map is walked.
use jcu_dparm.Common.{ℕ, ◌≡◌, inl, inr, refl, sym, ap, ◌∙◌, arith, List, [], ◌∷◌, ◌++◌}
use jcu_dparm.Common.{ltb, ◌||◌}
use jcu_dparm.Common.{Bool, true, false, ◌&&◌, if◌then◌else◌, ◌==◌, Bool-cases}
use jcu_dparm.Common.{
  Outcome, done, fault, ◌>>=◌, append_assoc, append-nil, >>=-elim, not, done-injective,
}

pub record VolumeInfo : Type 0 where
  pub path : List ℕ
  pub filesystem : List ℕ
  pub mount_points : List (List ℕ)

abbrev pub is_nil : List ℕ → Bool
is_nil [] = true
is_nil (x ∷ xs) = false

-- `strtok_r` with a space, again and again; `token` is what has been read of the present token.
unfoldable pub space_tokens : List ℕ → List ℕ → List (List ℕ)
space_tokens token [] = if is_nil token then [] else token ∷ []
space_tokens token (x ∷ line) =
    let rest = space_tokens (if x == 0x20 then [] else token ++ (x ∷ [])) line in
    if (x == 0x20) && not (is_nil token) then token ∷ rest else rest

-- The fields of a line that are used; a missing one is a null pointer, and a fault where a string
-- is made from it.
unfoldable pub mount_fields : List ℕ → Outcome (List ℕ × List ℕ × Outcome (List ℕ))
unfolding space_tokens
mount_fields line = elim (space_tokens [] line) [
  | [] ↦ fault
  | device ∷ rest ↦ elim rest [
    | [] ↦ fault
    | mount ∷ rest' ↦ elim rest' [
      | [] ↦ done (device, mount, fault)
      | filesystem ∷ rest'' ↦ done (device, mount, done filesystem)
    ]
  ]
]

unfoldable pub same_text : List ℕ → List ℕ → Bool
same_text [] [] = true
same_text [] (y ∷ ys) = false
same_text (x ∷ xs) [] = false
same_text (x ∷ xs) (y ∷ ys) = x == y && same_text xs ys

-- `volume_list_[device_path]` and what is done to it.
unfoldable pub add_mount : List ℕ → List ℕ → List ℕ → List VolumeInfo → List VolumeInfo
unfolding same_text
add_mount device mount filesystem [] =
    record { path = device; filesystem = filesystem; mount_points = mount ∷ [] } ∷ []
add_mount device mount filesystem (v ∷ vs) =
    if same_text v.path device
    then record v { mount_points = v.mount_points ++ (mount ∷ []) } ∷ vs
    else v ∷ add_mount device mount filesystem vs

unfoldable pub is_listed : List ℕ → List VolumeInfo → Bool
unfolding same_text
is_listed device [] = false
is_listed device (v ∷ vs) = same_text v.path device || is_listed device vs

-- The file system is read only for a device that is new.
unfoldable pub used_filesystem : List ℕ → Outcome (List ℕ) → List VolumeInfo → Outcome (List ℕ)
unfolding is_listed
used_filesystem device filesystem volumes = if is_listed device volumes then done [] else filesystem

-- The loop of `init`.
unfoldable pub read_mounts : List (List ℕ) → List VolumeInfo → Outcome (List VolumeInfo)
unfolding mount_fields add_mount used_filesystem
read_mounts [] volumes = done volumes
read_mounts (line ∷ lines) volumes = mount_fields line >>= λ f.
    used_filesystem f.0 f.2 volumes >>= λ filesystem.
    read_mounts lines (add_mount f.0 f.1 filesystem volumes)

-- `path.find(device_path) == 0`
unfoldable pub starts_with : List ℕ → List ℕ → Bool
starts_with text [] = true
starts_with [] (y ∷ ys) = false
starts_with (x ∷ xs) (y ∷ ys) = x == y && starts_with xs ys

-- The order of the keys of the map.
unfoldable pub text_before : List ℕ → List ℕ → Bool
text_before xs [] = false
text_before [] (y ∷ ys) = true
text_before (x ∷ xs) (y ∷ ys) = ltb x y || (x == y && text_before xs ys)

unfoldable pub insert_volume : VolumeInfo → List VolumeInfo → List VolumeInfo
unfolding text_before
insert_volume v [] = v ∷ []
insert_volume v (w ∷ ws) =
    let rest = insert_volume v ws in if text_before v.path w.path then v ∷ w ∷ ws else w ∷ rest

unfoldable pub get_list : List VolumeInfo → List VolumeInfo
unfolding insert_volume
get_list [] = []
get_list (v ∷ vs) = insert_volume v (get_list vs)

unfoldable pub on_drive : List ℕ → List VolumeInfo → List VolumeInfo
unfolding starts_with
on_drive device_path [] = []
on_drive device_path (v ∷ vs) =
    let rest = on_drive device_path vs in if starts_with v.path device_path then v ∷ rest else rest

abbrev pub find_volumes_by_drive : List ℕ → List VolumeInfo → List VolumeInfo
unfolding get_list on_drive
find_volumes_by_drive device_path volumes = on_drive device_path (get_list volumes)

same_text-eq : (xs ys : List ℕ) → same_text xs ys ≡ true → xs ≡ ys
unfolding same_text
same_text-eq [] [] e = refl
same_text-eq [] (y ∷ ys) e = absurd cc
same_text-eq (x ∷ xs) [] e = absurd cc
same_text-eq (x ∷ xs) (y ∷ ys) e = elim (Bool-cases (x == y)) [
  | inl same ↦ let head : x ≡ y = ground arith in cc (head, same_text-eq xs ys (rw same at e))
  | inr other ↦ absurd (ground arith)
]

-- The mount points of a device among the volumes.
abbrev pub mount_points_of : List ℕ → List VolumeInfo → List (List ℕ)
mount_points_of device [] = []
mount_points_of device (v ∷ vs) =
    let rest = mount_points_of device vs in if same_text v.path device then v.mount_points else rest

abbrev pub on_fields :
    List ℕ → Outcome (List ℕ × List ℕ × Outcome (List ℕ)) → List (List ℕ) → List (List ℕ)
on_fields device (done f) rest = if same_text f.0 device then f.1 ∷ rest else rest
on_fields device _ rest = rest

-- Those among the lines, in their order; a line with too few fields adds nothing.
abbrev pub mounts_among : List ℕ → List (List ℕ) → List (List ℕ)
mounts_among device [] = []
mounts_among device (line ∷ lines) =
    let rest = mounts_among device lines in on_fields device (mount_fields line) rest

same_text_refl : (xs : List ℕ) → same_text xs xs ≡ true
unfolding same_text
same_text_refl [] = refl
same_text_refl (x ∷ xs) = let head : (x == x) ≡ true = ground arith in rw head (same_text_refl xs)

different_texts :
    (v d p : List ℕ) → same_text v d ≡ false → same_text v p ≡ true → same_text d p ≡ false
different_texts v d p other same = elim (Bool-cases (same_text d p)) [
  | inl again ↦
      let equal : v ≡ d = same_text-eq v p same ∙ sym (same_text-eq d p again) in
      let clash = sym (same_text_refl v) ∙ ap (same_text v) equal ∙ other in absurd cc
  | inr free ↦ free
]

mount_points_of-add_mount :
    (device mount filesystem p : List ℕ) (vs : List VolumeInfo)
    → mount_points_of p (add_mount device mount filesystem vs)
      ≡ mount_points_of p vs ++ (if same_text device p then mount ∷ [] else [])
unfolding add_mount
mount_points_of-add_mount device mount filesystem p [] = refl
mount_points_of-add_mount device mount filesystem p (v ∷ vs) =
    elim (Bool-cases (same_text v.path device)) [
      | inl known ↦ elim (Bool-cases (same_text v.path p)) [
        | inl asked ↦
            let again : same_text device p ≡ true =
              ap (λ t. same_text t p) (sym (same_text-eq v.path device known)) ∙ asked in
            rw (known, asked, again) refl
        | inr other ↦
            let again : same_text device p ≡ false =
              ap (λ t. same_text t p) (sym (same_text-eq v.path device known)) ∙ other in
            rw (known, other, again) (sym (append-nil (mount_points_of p vs)))
      ]
      | inr new ↦ elim (Bool-cases (same_text v.path p)) [
        | inl asked ↦
            rw (new, asked, different_texts v.path device p new asked)
              (sym (append-nil v.mount_points))
        | inr other ↦ rw (new, other) (mount_points_of-add_mount device mount filesystem p vs)
      ]
    ]

among_first :
    (device line : List ℕ) (lines : List (List ℕ)) (f : List ℕ × List ℕ × Outcome (List ℕ))
    → mount_fields line ≡ done f
    → (if same_text f.0 device then f.1 ∷ [] else []) ++ mounts_among device lines
      ≡ mounts_among device (line ∷ lines)
among_first device line lines f read =
    choose (same_text f.0 device)
    ∙ ap (λ t. on_fields device t (mounts_among device lines)) (sym read)
  where
    choose :
        (b : Bool)
        → (if b then f.1 ∷ [] else []) ++ mounts_among device lines
          ≡ (if b then f.1 ∷ mounts_among device lines else mounts_among device lines)
    choose true = refl
    choose false = refl

read_mounts_from :
    (device : List ℕ) (lines : List (List ℕ)) (volumes found : List VolumeInfo)
    → read_mounts lines volumes ≡ done found
    → mount_points_of device found ≡ mount_points_of device volumes ++ mounts_among device lines
unfolding read_mounts
read_mounts_from device [] volumes found e =
    ap (mount_points_of device) (sym (done-injective e))
    ∙ sym (append-nil (mount_points_of device volumes))
read_mounts_from device (line ∷ lines) volumes found e =
    >>=-elim (mount_fields line) _ e (λ f read more.
      >>=-elim (used_filesystem f.0 f.2 volumes) _ more (λ filesystem used last.
        read_mounts_from device lines (add_mount f.0 f.1 filesystem volumes) found last
        ∙ ap (λ t. t ++ mounts_among device lines)
            (mount_points_of-add_mount f.0 f.1 filesystem device volumes)
        ∙ append_assoc (mount_points_of device volumes) _ (mounts_among device lines)
        ∙ ap (λ t. mount_points_of device volumes ++ t) (among_first device line lines f read)))

-- Once the mount table has been read, the volume of a device has the mount points of all its lines
-- and no other, in the order of the lines.
pub mount_points_of-read_mounts :
    (device : List ℕ) (lines : List (List ℕ)) (found : List VolumeInfo)
    → read_mounts lines [] ≡ done found
    → mount_points_of device found ≡ mounts_among device lines
mount_points_of-read_mounts device lines found e = read_mounts_from device lines [] found e

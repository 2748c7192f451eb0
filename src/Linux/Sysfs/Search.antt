-- ===== src/Linux/Sysfs/Search.antt =====
-- `sysfs_find_dev2` finds a device exactly where there is one to be found, and the climb of
-- `sysfs_find_attr_file_path` stops at the nearest directory.
use jcu_dparm.Common.{ℕ, zero, suc, ◌≡◌, ◌⊎◌, inl, inr, refl, ap, sym, ◌∙◌}
use jcu_dparm.Common.{List, [], ◌∷◌, true, Option, none, some, arith}
use jcu_dparm.Common.{subst, Bool-cases}
use jcu_dparm.Linux.Sysfs.{Entry, DevT, Lookup, error, found, SysFs, Verdict, skip, take, descend}
use jcu_dparm.Linux.Sysfs.{verdict, read_dev, path_append, is_candidate, visit, find_dev2, in_dir}
use jcu_dparm.Linux.Sysfs.{or_else, enoent}

abbrev pub Among : Entry → List Entry → Type 0
Among e [] = ⊥
Among e (x ∷ xs) = (e ≡ x) ⊎ Among e xs

Verdict-cases : (v : Verdict) → (v ≡ skip) ⊎ ((v ≡ take) ⊎ (v ≡ descend))
Verdict-cases skip = inl refl
Verdict-cases take = inr (inl refl)
Verdict-cases descend = inr (inr refl)

found-ne-error : {A : Type 0} {x : A} {e : ℕ} → found x ≡ error e → ⊥
found-ne-error h = cc

or_else-error :
    (r rest : Lookup (List ℕ)) (n : ℕ)
    → or_else r rest ≡ error n
    → ((m : ℕ) × (r ≡ error m)) × (rest ≡ error n)
or_else-error (found p) rest n h = absurd cc
or_else-error (error m) rest n h = ((m, refl), h)

-- The search goes on below a directory without a number, and below one with another minor number.
abbrev pub IsPassed : DevT → Option DevT → Type 0
IsPassed dev number =
    (number ≡ none) ⊎ ((n : ℕ) × (number ≡ some (record dev { minor = n })) × ((n ≡ dev.minor) → ⊥))

verdict-take : (dev : DevT) (number : Option DevT) → verdict dev number ≡ take → number ≡ some dev
unfolding verdict
verdict-take dev none h = absurd cc
verdict-take dev (some d) h = let same : d ≡ dev = ground arith in ap (λ t. some t) same

verdict_same : (dev : DevT) → verdict dev (some dev) ≡ take
unfolding verdict
verdict_same dev = ground arith

verdict-descend :
    (dev : DevT) (number : Option DevT) → verdict dev number ≡ descend → IsPassed dev number
unfolding verdict
verdict-descend dev none h = inl refl
verdict-descend dev (some d) h =
    let same : d ≡ record dev { minor = d.minor } = ground arith in
    inr (d.minor, ap (λ t. some t) same, λ e. ground arith)

verdict_passed :
    (dev : DevT) (number : Option DevT) → IsPassed dev number → verdict dev number ≡ descend
unfolding verdict
verdict_passed dev number (inl e) = ap (verdict dev) e
verdict_passed dev number (inr (n, e, other)) =
    let here : verdict dev (some (record dev { minor = n })) ≡ descend = ground arith in
    ap (verdict dev) e ∙ here

module _ {A : Type 0} (fs : SysFs A) (dev : DevT) where
  -- An entry of the directory `path` leads to `p`: it has the number of the device, or one has to
  -- look below it, where `Below` leads on.
  abbrev pub Leads : (List ℕ → List ℕ → Type 0) → List ℕ → Entry → List ℕ → Type 0
  Leads Below path e p =
      (is_candidate e ≡ true)
      × (((read_dev fs (path_append path e.name) ≡ some dev) × (p ≡ path_append path e.name))
          ⊎ (IsPassed dev (read_dev fs (path_append path e.name))
              × Below (path_append path e.name) p))

  module _ (deeper : List ℕ → Lookup (List ℕ)) (Below : List ℕ → List ℕ → Type 0) where
    -- What the directory of the first entry makes of it, and the rest of the loop.
    descend-found :
        ((q p : List ℕ) → deeper q ≡ found p → Below q p)
        → (path p : List ℕ) (x : Entry) (rest : Lookup (List ℕ)) {Later : Type 0}
        → is_candidate x ≡ true
        → verdict dev (read_dev fs (path_append path x.name)) ≡ descend
        → (rest ≡ found p → Later)
        → (r : Lookup (List ℕ)) → deeper (path_append path x.name) ≡ r
        → or_else r rest ≡ found p
        → Leads Below path x p ⊎ Later
    descend-found sound path p x rest shown v later (found q) r h =
        inl (shown, inr (verdict-descend dev _ v, sound _ p (r ∙ h)))
    descend-found sound path p x rest shown v later (error n) r h = inr (later h)

    visit-found :
        ((q p : List ℕ) → deeper q ≡ found p → Below q p)
        → (path p : List ℕ) (es : List Entry) → visit fs dev deeper path es ≡ found p
        → (e : Entry) × Among e es × Leads Below path e p
    unfolding visit
    visit-found sound path p [] h = absurd cc
    visit-found sound path p (x ∷ es) h = first (visit-found sound path p es)
      where
        path' : List ℕ
        path' = path_append path x.name

        Later : Type 0
        Later = (e : Entry) × Among e es × Leads Below path e p

        choose :
            Leads Below path x p ⊎ Later → (e : Entry) × Among e (x ∷ es) × Leads Below path e p
        choose (inl leads) = (x, inl refl, leads)
        choose (inr (e, among, leads)) = (e, inr among, leads)

        first :
            (visit fs dev deeper path es ≡ found p → Later)
            → (e : Entry) × Among e (x ∷ es) × Leads Below path e p
        first later = elim (Bool-cases (is_candidate x)) [
          | inr hidden ↦ choose (inr (later (rw hidden at h)))
          | inl shown ↦ elim (Verdict-cases (verdict dev (read_dev fs path'))) [
            | inl v ↦ choose (inr (later (rw (shown, v) at h)))
            | inr (inl v) ↦
                let here : found path' ≡ found p = rw (shown, v) at h in
                choose (inl (shown, inl (verdict-take dev _ v, cc)))
            | inr (inr v) ↦ choose (
                descend-found sound path p x _ shown v later (deeper path') refl
                  (rw (shown, v) at h))
          ]
        ]

    visit_tail-error :
        (path : List ℕ) (x : Entry) (es : List Entry) (n : ℕ)
        → visit fs dev deeper path (x ∷ es) ≡ error n
        → visit fs dev deeper path es ≡ error n
    unfolding visit
    visit_tail-error path x es n h = elim (Bool-cases (is_candidate x)) [
      | inr hidden ↦ rw hidden at h
      | inl shown ↦ elim (Verdict-cases (verdict dev (read_dev fs (path_append path x.name)))) [
        | inl v ↦ rw (shown, v) at h
        | inr (inl v) ↦ absurd (found-ne-error (rw (shown, v) at h))
        | inr (inr v) ↦ (or_else-error _ _ n (rw (shown, v) at h)).1
      ]
    ]

    visit_head-error :
        ((q p : List ℕ) (n : ℕ) → deeper q ≡ error n → Below q p → ⊥)
        → (path p : List ℕ) (x : Entry) (es : List Entry) (n : ℕ)
        → visit fs dev deeper path (x ∷ es) ≡ error n
        → Leads Below path x p
        → ⊥
    unfolding visit
    visit_head-error complete path p x es n h (shown, inl (number, end)) =
        let v = ap (verdict dev) number ∙ verdict_same dev in found-ne-error (rw (shown, v) at h)
    visit_head-error complete path p x es n h (shown, inr (passed, below)) =
        let v = verdict_passed dev _ passed in
        let (m, failed) = (or_else-error _ _ n (rw (shown, v) at h)).0 in
        complete (path_append path x.name) p m failed below

    visit-error :
        ((q p : List ℕ) (n : ℕ) → deeper q ≡ error n → Below q p → ⊥)
        → (path p : List ℕ) (es : List Entry) (n : ℕ) → visit fs dev deeper path es ≡ error n
        → (e : Entry) → Among e es
        → Leads Below path e p
        → ⊥
    visit-error complete path p [] n h e among leads = among
    visit-error complete path p (x ∷ es) n h e (inl same) leads =
        visit_head-error complete path p x es n h (subst (λ t. Leads Below path t p) same leads)
    visit-error complete path p (x ∷ es) n h e (inr among) leads =
        visit-error complete path p es n (visit_tail-error path x es n h) e among leads

  abbrev pub Nowhere : List ℕ → List ℕ → Type 0
  Nowhere q p = ⊥

  -- From the directory `path`, with so many levels below it, the search may get to `p`.
  abbrev pub Reaches : ℕ → List ℕ → List ℕ → Type 0
  Reaches zero path p =
      (es : List Entry) × (fs.list_dir path ≡ found es)
      × ((e : Entry) × Among e es × Leads Nowhere path e p)
  Reaches (suc r) path p =
      (es : List Entry) × (fs.list_dir path ≡ found es)
      × ((e : Entry) × Among e es × Leads (Reaches r) path e p)

  in_dir-cases :
      (f : List Entry → Lookup (List ℕ)) (path : List ℕ) (r : Lookup (List ℕ))
      → in_dir f (fs.list_dir path) ≡ r
      → ((n : ℕ) × (fs.list_dir path ≡ error n) × (r ≡ error n))
        ⊎ ((es : List Entry) × (fs.list_dir path ≡ found es) × (f es ≡ r))
  in_dir-cases f path r h = of_dir (fs.list_dir path) refl h
    where
      of_dir :
          (d : Lookup (List Entry))
          → fs.list_dir path ≡ d
          → in_dir f d ≡ r
          → ((n : ℕ) × (fs.list_dir path ≡ error n) × (r ≡ error n))
            ⊎ ((es : List Entry) × (fs.list_dir path ≡ found es) × (f es ≡ r))
      of_dir (error n) e h = inl (n, e, sym h)
      of_dir (found es) e h = inr (es, e, h)

  find_dev2-found : (r : ℕ) (path p : List ℕ) → find_dev2 fs dev r path ≡ found p → Reaches r path p
  unfolding find_dev2
  find_dev2-found zero path p h = elim (in_dir-cases _ path (found p) h) [
    | inl (n, listed, bad) ↦ absurd (found-ne-error bad)
    | inr (es, listed, there) ↦ (
      es,
      listed,
      visit-found (λ q. error enoent) Nowhere (λ q p' e. found-ne-error (sym e)) path p es there,
    )
  ]
  find_dev2-found (suc r) path p h = elim (in_dir-cases _ path (found p) h) [
    | inl (n, listed, bad) ↦ absurd (found-ne-error bad)
    | inr (es, listed, there) ↦ (
      es,
      listed,
      visit-found (find_dev2 fs dev r) (Reaches r) (find_dev2-found r) path p es there,
    )
  ]

  find_dev2-error :
      (r : ℕ) (path p : List ℕ) (n : ℕ) → find_dev2 fs dev r path ≡ error n → Reaches r path p → ⊥
  unfolding find_dev2
  find_dev2-error zero path p n h (es, listed, (e, among, leads)) =
      visit-error (λ q. error enoent) Nowhere (λ q p' m failed none. none) path p es n
        (ap (in_dir _) (sym listed) ∙ h) e among leads
  find_dev2-error (suc r) path p n h (es, listed, (e, among, leads)) =
      visit-error (find_dev2 fs dev r) (Reaches r) (find_dev2-error r) path p es n
        (ap (in_dir _) (sym listed) ∙ h) e among leads

  -- The search finds a path exactly if it can get to one: what it finds is the path of a directory
  -- with the number of the device, by way of directories that are not hidden and have no number, or
  -- one with the same major number and another minor number; and where it finds nothing there is no
  -- such way. The number is what the code takes for it: where the file of the attribute ends early
  -- while errno is 0, that is what the uninitialised variables hold.
  pub find_dev2_lem :
      (r : ℕ) (path : List ℕ)
      → ((p : List ℕ) → find_dev2 fs dev r path ≡ found p → Reaches r path p)
        × ((n : ℕ) → find_dev2 fs dev r path ≡ error n → (p : List ℕ) → ¬ Reaches r path p)
  find_dev2_lem r path = (λ p h. find_dev2-found r path p h, λ n h p. find_dev2-error r path p n h)

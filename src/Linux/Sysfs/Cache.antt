-- ===== src/Linux/Sysfs/Cache.antt =====
-- The path that `sysfs_find_fd` keeps from call to call.
use jcu_dparm.Common.{ℕ, ◌≡◌, refl, ap, sym, ◌∙◌, arith, List, [], ◌∷◌, map, true, false}
use jcu_dparm.Common.{inl, inr, Bool-cases, ◌&&◌}
use jcu_dparm.Linux.Sysfs.{DevT, Lookup, error, found, SysFs, PathCache, find_dev, find_fd}
use jcu_dparm.Linux.Sysfs.{remembered, same_dev}

module _ {A : Type 0} (fs : SysFs A) where
  -- Without a cache.
  abbrev pub searched : Lookup DevT → Lookup (List ℕ)
  searched (error e) = error e
  searched (found d) = find_dev fs d

  -- The calls one after the other: the static variables go from one to the next.
  abbrev pub find_fds : List (Lookup DevT) → PathCache → List (Lookup (List ℕ))
  find_fds [] c = []
  find_fds (d ∷ ds) c = let (p, c') = find_fd fs d c in p ∷ find_fds ds c'

  -- What is kept is what a search would find.
  pub IsFresh : PathCache → Type 0
  IsFresh c = c.have_prev ≡ true → find_dev fs c.prev ≡ found c.path

  same_dev-eq : (a b : DevT) → same_dev a b ≡ true → a ≡ b
  same_dev-eq a b e = ground arith

  remembered_lem :
      (d : DevT) (r : Lookup (List ℕ)) (c : PathCache)
      → find_dev fs d ≡ r
      → ((remembered d r c).0 ≡ r) × IsFresh (remembered d r c).1
  unfolding IsFresh
  remembered_lem d (error e) c h = (refl, λ kept. absurd cc)
  remembered_lem d (found p) c h = (refl, λ kept. h)

  find_fd_lem :
      (d : Lookup DevT) (c : PathCache)
      → IsFresh c
      → ((find_fd fs d c).0 ≡ searched d) × IsFresh (find_fd fs d c).1
  unfolding find_fd IsFresh
  find_fd_lem (error e) c fresh = (refl, λ kept. absurd cc)
  find_fd_lem (found d) c fresh = elim (Bool-cases (c.have_prev && same_dev d c.prev)) [
    | inl hit ↦
        let kept : c.have_prev ≡ true = ground arith in
        let same = same_dev-eq d c.prev (ground arith) in
        rw hit (sym (fresh kept) ∙ ap (find_dev fs) (sym same), fresh)
    | inr miss ↦ rw miss (remembered_lem d (find_dev fs d) c refl)
  ]

  find_fds-IsFresh :
      (ds : List (Lookup DevT)) (c : PathCache) → IsFresh c → find_fds ds c ≡ map searched ds
  find_fds-IsFresh [] c fresh = refl
  find_fds-IsFresh (d ∷ ds) c fresh =
      let (first, fresh') = find_fd_lem d c fresh in
      let rest = find_fds-IsFresh ds (find_fd fs d c).1 fresh' in cc (first, rest)

  -- The cache is not to be seen: on a system that stays the same, any calls of `sysfs_find_fd` one
  -- after the other, failed ones among them, return what a search at each call would. The variables
  -- that the search leaves uninitialised hold the same at each call.
  pub find_fds-searched :
      (ds : List (Lookup DevT)) (prev : DevT) (path : List ℕ)
      → find_fds ds (record { have_prev = false; prev = prev; path = path }) ≡ map searched ds
  unfolding IsFresh
  find_fds-searched ds prev path = find_fds-IsFresh ds _ (λ kept. absurd cc)

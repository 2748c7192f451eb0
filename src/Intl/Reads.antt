-- ===== src/Intl/Reads.antt =====
-- When the reading of a text stays inside its buffer.
use jcu_dparm.Common.{ℕ, zero, suc, ◌≤◌, ◌<◌, ◌≡◌, inl, inr, refl, arith, List, [], ◌∷◌, false}
use jcu_dparm.Common.{◌==◌, Bool-cases, length, All, done, fault}
use jcu_dparm.Intl.{before_zero}

pub before_zero-IsDone :
    (n : ℕ) (m : List ℕ) → n ≤ length m → (t : List ℕ) × (before_zero n m ≡ done t)
unfolding before_zero
before_zero-IsDone zero m h = ([], refl)
before_zero-IsDone (suc n) [] h = absurd (omega arith)
before_zero-IsDone (suc n) (x ∷ m) h =
    let (t, e) = before_zero-IsDone n m (omega arith) in
    elim (Bool-cases (x == 0)) [
      | inl last ↦ rw last ([], refl)
      | inr more ↦ rw (more, e) (x ∷ t, refl)
    ]

pub before_zero-fault :
    (n : ℕ) (m : List ℕ) → length m < n → All (λ x. (x == 0) ≡ false) m → before_zero n m ≡ fault
unfolding before_zero
before_zero-fault zero m h set = absurd (omega arith)
before_zero-fault (suc n) [] h set = refl
before_zero-fault (suc n) (x ∷ m) h set = rw (set.0, before_zero-fault n m (omega arith) set.1) refl

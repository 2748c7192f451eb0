-- ===== src/Intl/Order.antt =====
-- The byte order of an ATA text.
use jcu_dparm.Common.{ℕ, zero, suc, ◌*◌, ◌≡◌, refl, sym, ap, ◌∙◌, arith, List, [], ◌∷◌}
use jcu_dparm.Common.{Bool, true, false, ◌==◌, if◌then◌else◌, length}
use jcu_dparm.Common.{Outcome, done, fault, stuck, ◌>>=◌}
use jcu_dparm.Intl.{before_zero, swapped_before_zero, read_string, fix_ata_string_order}

-- The bytes of an ATA text: the pairs of a text, each with its bytes exchanged.
unfoldable pub swap_pairs : List ℕ → List ℕ
swap_pairs [] = []
swap_pairs (x ∷ []) = x ∷ []
swap_pairs (x ∷ (y ∷ m)) = y ∷ (x ∷ swap_pairs m)

swapped_pair :
    (pairs x y : ℕ) (m : List ℕ)
    → swapped_before_zero pairs (swap_pairs m) ≡ before_zero (pairs * 2) m
    → swapped_before_zero (suc pairs) (swap_pairs (x ∷ (y ∷ m)))
      ≡ before_zero (suc (suc (pairs * 2))) (x ∷ (y ∷ m))
unfolding swapped_before_zero before_zero swap_pairs
swapped_pair pairs x y m ih = rw ih (pick (x == 0) (y == 0) (before_zero (pairs * 2) m))
  where
    pick :
        (a b : Bool) (r : Outcome (List ℕ))
        → (if a then done [] else if b then done (x ∷ []) else (r >>= λ t. done (x ∷ (y ∷ t)))) ≡ (
            if a
            then done []
            else ((if b then done [] else (r >>= λ t. done (y ∷ t))) >>= λ t. done (x ∷ t)))
    pick true b r = refl
    pick false true r = refl
    pick false false (done t) = refl
    pick false false fault = refl
    pick false false stuck = refl

swapped_before_zero-swap_pairs :
    (pairs : ℕ) (m : List ℕ)
    → length m ≡ pairs * 2
    → swapped_before_zero pairs (swap_pairs m) ≡ before_zero (pairs * 2) m
unfolding swapped_before_zero before_zero swap_pairs
swapped_before_zero-swap_pairs zero m h = refl
swapped_before_zero-swap_pairs (suc pairs) [] h = absurd (omega arith)
swapped_before_zero-swap_pairs (suc pairs) (x ∷ []) h = absurd (omega arith)
swapped_before_zero-swap_pairs (suc pairs) (x ∷ (y ∷ m)) h =
    let up : suc pairs * 2 ≡ suc (suc (pairs * 2)) = omega arith in
    let ih = swapped_before_zero-swap_pairs pairs m (omega arith) in
    swapped_pair pairs x y m ih ∙ sym (ap (λ k. before_zero k (x ∷ (y ∷ m))) up)

-- An ATA text with its bytes exchanged in pairs, of an even number of bytes, is read as the plain
-- text is: up to the first zero, and without the spaces at its end where these are trimmed.
pub fix_ata_string_order-swap_pairs :
    (pairs : ℕ) (m : List ℕ) (trim_right : Bool)
    → length m ≡ pairs * 2
    → fix_ata_string_order (swap_pairs m) pairs trim_right ≡ read_string m (pairs * 2) trim_right
unfolding fix_ata_string_order read_string
fix_ata_string_order-swap_pairs pairs m trim_right h = rw (swapped_before_zero-swap_pairs pairs m h)

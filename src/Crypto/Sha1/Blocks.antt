-- ===== src/Crypto/Sha1/Blocks.antt =====
-- Whole blocks of a message, one after the other, as the loop of `sha1Update` takes them.
use jcu_dparm.Common.{ℕ, zero, suc, ◌+◌, ◌*◌, ◌≤◌, ◌<◌, ◌≡◌, refl, sym, ap, ◌∙◌, arith}
use jcu_dparm.Common.{List, ◌++◌, ltb, false, true}
use jcu_dparm.Common.{length, take, drop, length-take, length-drop, length-append, drop-add}
use jcu_dparm.Common.{take-append_short, drop-append_short, take-append_long}
use jcu_dparm.Common.{take-append}
use jcu_dparm.Crypto.Compress.{Regs, sha1_transform}
use jcu_dparm.Crypto.Sha1.{whole_blocks, copy_at}

-- The state after the first `n` blocks of a message.
unfoldable pub blocks : ℕ → Regs → List ℕ → Regs
blocks zero state m = state
blocks (suc n) state m = blocks n (sha1_transform state (take 64 m)) (drop 64 m)

pub blocks-add :
    (n k : ℕ) (state : Regs) (m : List ℕ)
    → blocks (n + k) state m ≡ blocks k (blocks n state m) (drop (64 * n) m)
unfolding blocks
blocks-add zero k state m = let same : zero + k ≡ k = omega arith in ap (λ t. blocks t state m) same
blocks-add (suc n) k state m =
    let up : suc n + k ≡ suc (n + k) = omega arith in
    let step : 64 * suc n ≡ 64 + 64 * n = omega arith in
    ap (λ t. blocks t state m) up
    ∙ blocks-add n k (sha1_transform state (take 64 m)) (drop 64 m)
    ∙ ap (λ t. blocks k (blocks n (sha1_transform state (take 64 m)) (drop 64 m)) t)
        (sym (ap (λ t. drop t m) step ∙ drop-add 64 (64 * n) m))

pub blocks-append :
    (n : ℕ) (state : Regs) (m d : List ℕ)
    → 64 * n ≤ length m
    → blocks n state (m ++ d) ≡ blocks n state m
unfolding blocks
blocks-append zero state m d h = refl
blocks-append (suc n) state m d h =
    rw (take-append_short 64 m d (omega arith), drop-append_short 64 m d (omega arith))
      (blocks-append n (sha1_transform state (take 64 m)) (drop 64 m) d
        (omega (arith, length-drop 64 m)))

-- The loop takes all the whole blocks, and leaves the rest.
pub whole_blocks_lem :
    (fuel k : ℕ) (state : Regs) (m : List ℕ)
    → 64 * k ≤ length m
    → length m < 64 * k + 64
    → k ≤ fuel
    → whole_blocks fuel state m ≡ (blocks k state m, drop (64 * k) m)
unfolding whole_blocks blocks
whole_blocks_lem zero zero state m h g f = refl
whole_blocks_lem zero (suc k) state m h g f = absurd (omega arith)
whole_blocks_lem (suc fuel) zero state m h g f =
    let last : ltb 63 (length m) ≡ false = ground arith in rw last refl
whole_blocks_lem (suc fuel) (suc k) state m h g f =
    let more : ltb 63 (length m) ≡ true = ground arith in
    let step : 64 * suc k ≡ 64 + 64 * k = omega arith in
    rw (more, step, drop-add 64 (64 * k) m)
      (whole_blocks_lem fuel k (sha1_transform state (take 64 m)) (drop 64 m)
        (omega (arith, length-drop 64 m)) (omega (arith, length-drop 64 m)) (omega arith))

-- What `memcpy` into the buffer leaves in it.
pub length-copy_at :
    (j : ℕ) (bytes buffer : List ℕ)
    → j + length bytes ≤ length buffer
    → length (copy_at j bytes buffer) ≡ length buffer
length-copy_at j bytes buffer h = omega (
  arith,
  length-append (take j buffer) (bytes ++ drop (j + length bytes) buffer),
  length-append bytes (drop (j + length bytes) buffer),
  length-take j buffer,
  length-drop (j + length bytes) buffer,
)

pub take-copy_at :
    (j : ℕ) (bytes buffer : List ℕ)
    → j + length bytes ≤ length buffer
    → take (j + length bytes) (copy_at j bytes buffer) ≡ take j buffer ++ bytes
take-copy_at j bytes buffer h =
    let front : j ≡ length (take j buffer) = omega (arith, length-take j buffer) in
    ap (λ t. take (t + length bytes) (copy_at j bytes buffer)) front
    ∙ take-append_long (length bytes) (take j buffer) (bytes ++ drop (j + length bytes) buffer)
    ∙ ap (λ t. take j buffer ++ t) (take-append bytes (drop (j + length bytes) buffer))

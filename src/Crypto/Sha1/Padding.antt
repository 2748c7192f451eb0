-- ===== src/Crypto/Sha1/Padding.antt =====
-- `sha1Final` against the padding of FIPS 180.
use jcu_dparm.Common.{
  ℕ, zero, suc, ◌+◌, ◌-◌, ◌*◌, ◌/◌, ◌%◌, ◌^◌, ◌<◌, ◌≡◌, refl, sym, ap, ◌∙◌, subst, arith,
}
use jcu_dparm.Common.{List, [], ◌∷◌, ◌++◌, ◌==◌}
use jcu_dparm.Common.{true, false, bit_and, u8, ◌>>>◌, done, ◌>>=◌, All}
use jcu_dparm.Common.{length, replicate, length-append}
use jcu_dparm.Common.{length-replicate, append_assoc, append-nil}
use jcu_dparm.Common.Bits.{bit_and_field}
use jcu_dparm.Crypto.Sha1.{Sha1, sha1_init, sha1_update, update}
use jcu_dparm.Crypto.Sha1.{pad_zeros, sha1_final, regs_bytes, be32, wiped}
use jcu_dparm.Crypto.Hash.{IsHash}
use jcu_dparm.Crypto.Sha1.{sha1_factory}
use jcu_dparm.Crypto.Sha1.Blocks.{blocks}
use jcu_dparm.Crypto.Sha1.Taken.{Holds, sha1_init-Holds, sha1_update-Holds, update-Holds}

append_zeros : (z : ℕ) (m : List ℕ) → (m ++ (0 ∷ [])) ++ replicate z 0 ≡ m ++ replicate (suc z) 0
append_zeros z m = append_assoc m (0 ∷ []) (replicate z 0)

-- The zeros of the padding bring the count to 56 bytes of a block.
pad_zeros_lem :
    (z fuel : ℕ) {s : Sha1} {m : List ℕ}
    → z < 64
    → z < fuel
    → (length m + z) % 64 ≡ 56
    → Holds s m
    → (t : Sha1) × (pad_zeros fuel s ≡ done t) × Holds t (m ++ replicate z 0)
unfolding pad_zeros
pad_zeros_lem z zero {s} {m} lt f e h = absurd (omega arith)
pad_zeros_lem zero (suc fuel) {s} {m} lt f e h =
    let stop : (bit_and s.count_low 504 == 448) ≡ true =
      ground (arith, bit_and_field 6 3 s.count_low, h.low) in
    (s, rw stop refl, subst (Holds s) (sym (append-nil m)) h)
pad_zeros_lem (suc z) (suc fuel) {s} {m} lt f e h =
    let more : (bit_and s.count_low 504 == 448) ≡ false =
      ground (arith, bit_and_field 6 3 s.count_low, h.low) in
    let step = sha1_update-Holds (0 ∷ []) (omega arith) h in
    let (t, et, ht) = pad_zeros_lem z fuel lt' f' (omega (arith, length-append m (0 ∷ []))) step in
    (t, rw more et, subst (Holds t) (append_zeros z m) ht)
  where
    lt' : z < 64
    lt' = omega arith

    f' : z < fuel
    f' = omega arith

-- FIPS 180, section 5.1.1: a one bit, zeros up to 56 bytes of a block, and the length in 64 bits.
abbrev pub be64 : ℕ → List ℕ
be64 x = u8 (x >>> 56) ∷ u8 (x >>> 48) ∷ u8 (x >>> 40) ∷ u8 (x >>> 32) ∷ be32 x

unfoldable pub zeros_needed : ℕ → ℕ
zeros_needed n = (119 - n % 64) % 64

unfoldable pub padded : List ℕ → List ℕ
unfolding zeros_needed
padded m = ((m ++ (0x80 ∷ [])) ++ replicate (zeros_needed (length m)) 0) ++ be64 (8 * length m)

-- The digest of FIPS 180, section 6.1, over the compression of the code.
unfoldable pub sha1 : List ℕ → List ℕ
unfolding padded blocks
sha1 m = regs_bytes (blocks (length (padded m) / 64) sha1_init.state (padded m))

split_count : (x : ℕ) → x < 2 ^ 64 → be32 (x / 2 ^ 32 % 2 ^ 32) ++ be32 (x % 2 ^ 32) ≡ be64 x
split_count x lt = cc (first, second, third, fourth, fifth, sixth, seventh, eighth)
  where
    first : x / 2 ^ 32 % 2 ^ 32 / 2 ^ 24 % 2 ^ 8 ≡ x / 2 ^ 56 % 2 ^ 8
    first = omega arith

    second : x / 2 ^ 32 % 2 ^ 32 / 2 ^ 16 % 2 ^ 8 ≡ x / 2 ^ 48 % 2 ^ 8
    second = omega arith

    third : x / 2 ^ 32 % 2 ^ 32 / 2 ^ 8 % 2 ^ 8 ≡ x / 2 ^ 40 % 2 ^ 8
    third = omega arith

    fourth : x / 2 ^ 32 % 2 ^ 32 % 2 ^ 8 ≡ x / 2 ^ 32 % 2 ^ 8
    fourth = omega arith

    fifth : x % 2 ^ 32 / 2 ^ 24 % 2 ^ 8 ≡ x / 2 ^ 24 % 2 ^ 8
    fifth = omega arith

    sixth : x % 2 ^ 32 / 2 ^ 16 % 2 ^ 8 ≡ x / 2 ^ 16 % 2 ^ 8
    sixth = omega arith

    seventh : x % 2 ^ 32 / 2 ^ 8 % 2 ^ 8 ≡ x / 2 ^ 8 % 2 ^ 8
    seventh = omega arith

    eighth : x % 2 ^ 32 % 2 ^ 8 ≡ x % 2 ^ 8
    eighth = omega arith

final_count :
    {s : Sha1} {m : List ℕ}
    → Holds s m
    → length m < 2 ^ 61
    → be32 s.count_high ++ be32 s.count_low ≡ be64 (8 * length m)
final_count {s} {m} h lt =
    ap (λ t. be32 t ++ be32 s.count_low) h.high
    ∙ ap (λ t. be32 (8 * length m / 2 ^ 32 % 2 ^ 32) ++ be32 t) h.low
    ∙ split_count (8 * length m) (omega arith)

length-padded : (m : List ℕ) → length (padded m) % 64 ≡ 0
unfolding padded zeros_needed
length-padded m = omega (
  arith,
  length-append ((m ++ (0x80 ∷ [])) ++ replicate (zeros_needed (length m)) 0) (be64 (8 * length m)),
  length-append (m ++ (0x80 ∷ [])) (replicate (zeros_needed (length m)) 0),
  length-append m (0x80 ∷ []),
  length-replicate {A = ℕ} (zeros_needed (length m)) 0,
)

Holds-state :
    {s : Sha1} {m : List ℕ}
    → Holds s m
    → length m % 64 ≡ 0
    → s.state ≡ blocks (length m / 64) sha1_init.state m
Holds-state {s} {m} h e = h.done_blocks ∙ ap (λ n. blocks n sha1_init.state m) count
  where
    count : h.q ≡ length m / 64
    count = omega (arith, h.split, h.part)

-- The digest of an object that has taken the bytes `m`, fewer than 2^61, is that of the padded
-- message, and the object is left wiped.
pub sha1_final-sha1 :
    {s : Sha1} {m : List ℕ} → Holds s m → length m < 2 ^ 61 → sha1_final s ≡ done (sha1 m, wiped)
unfolding sha1_final sha1 padded zeros_needed
sha1_final-sha1 {s} {m} h lt =
    let one = sha1_update-Holds (0x80 ∷ []) (omega arith) h in
    let (t, et, ht) =
      pad_zeros_lem (zeros_needed (length m)) 64 {m = m ++ (0x80 ∷ [])} (omega arith) (omega arith)
        (omega (arith, length-append m (0x80 ∷ []))) one in
    let all = sha1_update-Holds (be64 (8 * length m)) (omega arith) ht in
    let fc = be32 s.count_high ++ be32 s.count_low in
    ap (λ o. o >>= λ p. done (regs_bytes (sha1_update p fc).state, wiped)) et
    ∙ ap (λ c. done (regs_bytes (sha1_update t c).state, wiped)) (final_count h lt)
    ∙ ap (λ r. done (regs_bytes r, wiped)) (Holds-state all (length-padded m))

-- Whatever the pieces in which a message of fewer than 2^61 bytes is given to an object since it
-- was made or reset, `digest` returns the digest of FIPS 180 of the whole.
pub sha1_factory-IsHash : IsHash sha1_factory sha1
unfolding sha1_factory sha1
sha1_factory-IsHash = record {
  Taken = Holds;
  created = sha1_init-Holds;
  reset_taken = λ s. sha1_init-Holds;
  updated = λ s m d h small. update-Holds d small h;
  digested = λ s m h small. (wiped, sha1_final-sha1 h small);
  size = λ m. refl;
}

-- Calls of `update` one after the other.
unfoldable pub updates : List (List ℕ) → Sha1 → Sha1
unfolding update
updates [] s = s
updates (d ∷ ds) s = updates ds (update s d)

abbrev pub concat : List (List ℕ) → List ℕ
concat [] = []
concat (d ∷ ds) = d ++ concat ds

updates-Holds :
    (ds : List (List ℕ)) {s : Sha1} {m : List ℕ}
    → All (λ d. length d < 2 ^ 32 - 64) ds
    → Holds s m
    → Holds (updates ds s) (m ++ concat ds)
unfolding updates
updates-Holds [] {s} {m} small h = subst (Holds s) (sym (append-nil m)) h
updates-Holds (d ∷ ds) {s} {m} small h =
    subst (Holds (updates ds (update s d))) (append_assoc m d (concat ds))
      (updates-Holds ds small.1 (update-Holds d small.0 h))

-- In whatever pieces a message of fewer than 2^61 bytes is given to a new object, each piece
-- shorter than 2^32 - 64 bytes, the digest is that of FIPS 180 for the whole message: one bit and
-- zeros and the length in 64 bits are appended, and the blocks of 64 bytes are compressed in order.
pub sha1_final-updates :
    (ds : List (List ℕ))
    → All (λ d. length d < 2 ^ 32 - 64) ds
    → length (concat ds) < 2 ^ 61
    → sha1_final (updates ds sha1_init) ≡ done (sha1 (concat ds), wiped)
sha1_final-updates ds small short = sha1_final-sha1 (updates-Holds ds small sha1_init-Holds) short

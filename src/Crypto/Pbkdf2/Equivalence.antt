-- ===== src/Crypto/Pbkdf2/Equivalence.antt =====
-- The code of `pbkdf2` computes the key of RFC 8018, although it makes more blocks than it needs.
use jcu_dparm.Common.{ℕ, zero, suc, ◌+◌, ◌-◌, ◌*◌, ◌^◌, ◌≤◌, ◌<◌, ◌≡◌, refl, sym, ap, ◌∙◌, arith}
use jcu_dparm.Common.{List, [], ◌∷◌, ◌++◌, true, if◌then◌else◌, ltb, leb}
use jcu_dparm.Common.{length, take, drop, replicate, length-append, length-replicate}
use jcu_dparm.Common.{take_all, length-drop, done, ◌>>=◌}
use jcu_dparm.Common.{
  append_assoc, lt→ltb, ◌⊎◌, inl, inr, take-append, drop-append_long, read_bytes, read_bytes-take,
}
use native.Mathlib.Decide.{dec_le}
use jcu_dparm.Crypto.Sha1.{be32}
use jcu_dparm.Crypto.Hash.{HashFactory, IsHash, Hmac}
use jcu_dparm.Crypto.Hash.Laws.{
  hmac, IsKeyed, new_hmac-Taken, hmac_reset-Taken, hmac_update-Taken, hmac_digest-hmac,
}
use jcu_dparm.Crypto.Pbkdf2.{
  PbeKeySpec, write_at, iterate, derive_block, derive_blocks, pbkdf2, as_int,
}
use jcu_dparm.Crypto.Pbkdf2.Derived.{
  xor_lists, length-xor_lists, bytes_xor_lem, chain, derived_block, derived, length-hmac,
  length-derived_block, length-derived, more_blocks,
}

-- A block is written behind those that are done.
write_at-append :
    (front back bytes : List ℕ)
    → length bytes ≤ length back
    → write_at (length front) bytes (front ++ back)
      ≡ done ((front ++ bytes) ++ drop (length bytes) back)
write_at-append front back bytes h =
    let fits : leb (length front + length bytes) (length (front ++ back)) ≡ true =
      ground (arith, length-append front back) in
    rw (fits, take-append front back, drop-append_long (length bytes) front back)
      (ap done (sym (append_assoc front bytes (drop (length bytes) back))))

le-times : (d k : ℕ) → 0 < d → k ≤ k * d
le-times d k pos = grind arith

module _ {H : Type 0} (f : HashFactory H) (hash : List ℕ → List ℕ) (law : IsHash f hash)
    (key : List ℕ) (spec : PbeKeySpec) (short : length key ≤ f.block_size)
    (sizes : f.block_size + f.digest_size < 2 ^ 31) (salt : length spec.salt < 2 ^ 31) where
  iterate_lem :
      (n : ℕ) (prf : Hmac H) (block sum : List ℕ)
      → length block < 2 ^ 32 - 64
      → length sum ≡ f.digest_size
      → IsKeyed f hash law key prf
      → (prf' : Hmac H) × (iterate f n prf block sum
          ≡ done (chain f hash law key spec n block sum, prf'))
        × IsKeyed f hash law key prf'
  unfolding iterate chain
  iterate_lem zero prf block sum small size keyed = (prf, refl, keyed)
  iterate_lem (suc n) prf block sum small size keyed =
      let start = hmac_reset-Taken f hash law key short sizes prf keyed in
      let taken = hmac_update-Taken f hash law key short sizes _ [] block small start in
      let (next, e, keyed') =
        hmac_digest-hmac f hash law key short sizes _ block (omega arith) taken in
      let u = hmac f hash law key block in
      let size_u = length-hmac f hash law key spec block in
      let (last, e', keyed'') =
        iterate_lem n next u (xor_lists sum u) (omega (arith, size_u))
          (length-xor_lists sum u (size ∙ sym size_u) ∙ size) keyed' in
      (last, rw (e, bytes_xor_lem sum u f.digest_size size size_u) e', keyed'')

  derive_block_lem :
      (front back : List ℕ) (index : ℕ) (prf : Hmac H)
      → f.digest_size ≤ length back
      → IsKeyed f hash law key prf
      → (prf' : Hmac H) × (derive_block f spec (length front) (front ++ back) index prf
          ≡ done
              ((front ++ derived_block f hash law key spec index) ++ drop f.digest_size back, prf'))
        × IsKeyed f hash law key prf'
  unfolding derive_block derived_block
  derive_block_lem front back index prf fits keyed =
      let (prf', e, keyed') =
        iterate_lem spec.iteration prf (spec.salt ++ be32 index) (replicate f.digest_size 0)
          (omega (arith, length-append spec.salt (be32 index)))
          (length-replicate {A = ℕ} f.digest_size 0) keyed in
      let t = derived_block f hash law key spec index in
      let size = length-derived_block f hash law key spec index in
      let stored =
        write_at-append front back t (omega (arith, size))
        ∙ ap (λ n. done ((front ++ t) ++ drop n back)) size in
      (
        prf',
        ap
              (λ o. o >>= λ p.
                write_at (length front) (take f.digest_size p.0) (front ++ back) >>= λ t.
                done (t, p.1))
              e
            ∙ ap (λ u. write_at (length front) u (front ++ back) >>= λ t. done (t, prf'))
                (take_all f.digest_size t (omega (arith, size)))
            ∙ ap (λ o. o >>= λ t. done (t, prf')) stored,
        keyed',
      )

  derive_blocks_lem :
      (n index : ℕ) (front back : List ℕ) (prf : Hmac H)
      → length back ≡ n * f.digest_size
      → IsKeyed f hash law key prf
      → derive_blocks f spec n index (length front) (front ++ back) prf
        ≡ done (front ++ derived f hash law key spec n index)
  unfolding derive_blocks derived
  derive_blocks_lem zero index front [] prf size keyed = refl
  derive_blocks_lem zero index front (x ∷ back) prf size keyed = absurd (omega arith)
  derive_blocks_lem (suc n) index front back prf size keyed =
      let more : length back ≡ f.digest_size + n * f.digest_size = grind arith in
      let t = derived_block f hash law key spec index in
      let (prf', e, keyed') = derive_block_lem front back index prf (omega arith) keyed in
      let rest = drop f.digest_size back in
      let place : length front + f.digest_size ≡ length (front ++ t) =
        omega (arith, length-append front t, length-derived_block f hash law key spec index) in
      ap (λ o. o >>= λ p. derive_blocks f spec n (index + 1) (length front + f.digest_size) p.0 p.1)
        e
      ∙ ap (λ j. derive_blocks f spec n (index + 1) j ((front ++ t) ++ rest) prf') place
      ∙ derive_blocks_lem n (index + 1) (front ++ t) rest prf'
          (omega (arith, length-drop f.digest_size back)) keyed'
      ∙ ap done (append_assoc front t (derived f hash law key spec n (index + 1)))

  -- For every number `n` of blocks that hold the key, the code returns the first bytes of
  -- `T_1 ‖ … ‖ T_n`, where the products of `int` do not overflow: the length of the key times that
  -- of a digest, and the square of the latter, are less than 2^31. The password has at most one
  -- block, the sizes of a block and of a digest sum to less than 2^31, and the salt is shorter.
  pub pbkdf2_lem :
      (n : ℕ)
      → 0 < f.digest_size
      → spec.key_length ≤ n * f.digest_size
      → spec.key_length * f.digest_size < 2 ^ 31
      → f.digest_size * f.digest_size < 2 ^ 31
      → pbkdf2 f spec key ≡ done (take spec.key_length (derived f hash law key spec n 1))
  unfolding pbkdf2
  pbkdf2_lem n pos enough product square =
      let (prf, e, taken) = new_hmac-Taken f hash law key short sizes in
      ap
        (λ o. o >>= λ prf. as_int (l * f.digest_size) >>= λ size.
          derive_blocks f spec l 1 0 (replicate size 0) prf >>= read_bytes spec.key_length)
        e
      ∙ ap
          (λ o. o >>= λ size.
            derive_blocks f spec l 1 0 (replicate size 0) prf >>= read_bytes spec.key_length)
          allocated
      ∙ ap (λ o. o >>= read_bytes spec.key_length)
          (derive_blocks_lem l 1 [] (replicate (l * f.digest_size) 0) prf
            (length-replicate {A = ℕ} (l * f.digest_size) 0) taken.keyed)
      ∙ read_bytes-take spec.key_length (derived f hash law key spec l 1)
          (omega (arith, length-derived f hash law key spec l 1, held))
      ∙ ap done same
    where
      l : ℕ
      l = if ltb f.digest_size spec.key_length then spec.key_length else f.digest_size

      cases : (l ≡ spec.key_length) ⊎ (l ≡ f.digest_size)
      cases = ground arith

      small : ltb (l * f.digest_size) (2 ^ 31) ≡ true
      small = elim cases [ inl e ↦ rw e (lt→ltb _ _ product) | inr e ↦ rw e (lt→ltb _ _ square) ]

      allocated : as_int (l * f.digest_size) ≡ done (l * f.digest_size)
      allocated = rw small refl

      ge : spec.key_length ≤ l
      ge = ground arith

      held : spec.key_length ≤ l * f.digest_size
      held = omega (arith, le-times f.digest_size l pos, ge)

      same :
          take spec.key_length (derived f hash law key spec l 1)
          ≡ take spec.key_length (derived f hash law key spec n 1)
      same = elim (dec_le n l) [
        | yes le ↦ more_blocks f hash law key spec spec.key_length n l enough le
        | no gt ↦ sym (more_blocks f hash law key spec spec.key_length l n held (omega arith))
      ]

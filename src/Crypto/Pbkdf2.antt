-- ===== src/Crypto/Pbkdf2.antt =====
-- src/crypto/pbkdf2.cc. The numbers of a `PBEKeySpec`, which are of type `int`, are not negative.
pub mod Derived
pub mod Equivalence
use jcu_dparm.Common.{ℕ, zero, suc, ◌+◌, ◌*◌, ◌^◌, List, [], ◌∷◌, ◌++◌}
use jcu_dparm.Common.{if◌then◌else◌, ltb, leb, bit_xor, length, replicate, take, drop}
use jcu_dparm.Common.{Outcome, done, fault, ◌>>=◌, read_bytes}
use jcu_dparm.Crypto.Sha1.{be32, copy_at}
use jcu_dparm.Crypto.Hash.{HashFactory, Hmac, new_hmac, hmac_reset, hmac_update, hmac_digest}

pub record PbeKeySpec : Type 0 where
  pub iteration : ℕ
  pub key_length : ℕ
  pub salt : List ℕ

-- `dest[i] ^= src[i]` for the first bytes, in a vector and a vector.
unfoldable pub bytes_xor : List ℕ → List ℕ → ℕ → Outcome (List ℕ)
bytes_xor dest src zero = done dest
bytes_xor (x ∷ dest) (y ∷ src) (suc n) = bytes_xor dest src n >>= λ r. done (bit_xor x y ∷ r)
bytes_xor _ _ (suc n) = fault

-- A product of type `int`: one that is too large is undefined.
abbrev pub as_int : ℕ → Outcome ℕ
as_int n = if ltb n (2 ^ 31) then done n else fault

-- `memcpy` into a vector.
abbrev pub write_at : ℕ → List ℕ → List ℕ → Outcome (List ℕ)
write_at j bytes buffer =
    if leb (j + length bytes) (length buffer) then done (copy_at j bytes buffer) else fault

module _ {H : Type 0} (f : HashFactory H) where
  -- The loop of `F`: the digests of the block, of that digest, and so on, all XORed into `U_r`.
  unfoldable pub iterate : ℕ → Hmac H → List ℕ → List ℕ → Outcome (List ℕ × Hmac H)
  unfolding bytes_xor
  iterate zero prf block u_r = done (u_r, prf)
  iterate (suc n) prf block u_r = hmac_digest f (hmac_update f (hmac_reset f prf) block) >>= λ p.
      bytes_xor u_r p.0 f.digest_size >>= λ r. iterate n p.1 p.0 r

  -- The function `F` on a cleared `U_r`.
  unfoldable pub derive_block : PbeKeySpec → ℕ → List ℕ → ℕ → Hmac H → Outcome (List ℕ × Hmac H)
  unfolding iterate
  derive_block spec ti_offset tbuf index prf =
      iterate spec.iteration prf (spec.salt ++ be32 index) (replicate f.digest_size 0) >>= λ p.
      write_at ti_offset (take f.digest_size p.0) tbuf >>= λ t. done (t, p.1)

  -- The rounds of `for (int i = 1; i <= l; i++)` from `index` on.
  unfoldable pub derive_blocks : PbeKeySpec → ℕ → ℕ → ℕ → List ℕ → Hmac H → Outcome (List ℕ)
  unfolding derive_block
  derive_blocks spec zero index ti_offset tbuf prf = done tbuf
  derive_blocks spec (suc n) index ti_offset tbuf prf =
      derive_block spec ti_offset tbuf index prf >>= λ p.
      derive_blocks spec n (index + 1) (ti_offset + f.digest_size) p.0 p.1

  -- `ti_offset` grows to the product `l * hash_len` and no further.
  unfoldable pub pbkdf2 : PbeKeySpec → List ℕ → Outcome (List ℕ)
  unfolding derive_blocks
  pbkdf2 spec password =
      let l = if ltb f.digest_size spec.key_length then spec.key_length else f.digest_size in
      new_hmac f password >>= λ prf. as_int (l * f.digest_size) >>= λ size.
      derive_blocks spec l 1 0 (replicate size 0) prf >>= λ tbuf. read_bytes spec.key_length tbuf

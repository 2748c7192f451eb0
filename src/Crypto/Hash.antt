-- ===== src/Crypto/Hash.antt =====
-- The classes `HashFactory` and `Hash` of src/crypto/hash.h as an interface, and the class `Hmac`
-- of src/crypto/hash.cc over it.
pub mod Laws
use jcu_dparm.Common.{ℕ, zero, suc, ◌+◌, ◌-◌, ◌^◌, ◌<◌, ◌≡◌, List, [], ◌++◌, map}
use jcu_dparm.Common.{if◌then◌else◌, ltb, bit_xor, length, replicate}
use jcu_dparm.Common.{Outcome, done, stuck, ◌>>=◌, read_bytes}

-- A factory, and the methods of the objects `H` that it makes. `digest` changes its object.
pub record HashFactory (H : Type 0) : Type 0 where
  pub digest_size : ℕ
  pub block_size : ℕ
  pub create_hash : H
  pub update : H → List ℕ → H
  pub digest : H → Outcome (List ℕ × H)
  pub reset : H → H

-- What the clients rely on: the objects compute the function `hash` of the bytes they have taken
-- since they were made or reset.
pub record IsHash {H : Type 0} (f : HashFactory H) (hash : List ℕ → List ℕ) : Type 1 where
  pub Taken : H → List ℕ → Type 0
  pub created : Taken f.create_hash []
  pub reset_taken : (h : H) → Taken (f.reset h) []
  pub updated :
      (h : H) (m d : List ℕ) → Taken h m → length d < 2 ^ 32 - 64 → Taken (f.update h d) (m ++ d)
  pub digested :
      (h : H) (m : List ℕ)
      → Taken h m
      → length m < 2 ^ 61
      → (h' : H) × (f.digest h ≡ done (hash m, h'))
  pub size : (m : List ℕ) → length (hash m) ≡ f.digest_size

abbrev pub bytes_xor_all : List ℕ → ℕ → List ℕ
bytes_xor_all dest value = map (λ b. bit_xor b value) dest

pub record Hmac (H : Type 0) : Type 0 where
  pub i_key_pad : List ℕ
  pub o_key_pad : List ℕ
  pub message_hash : H

module _ {H : Type 0} (f : HashFactory H) where
  -- `createHash()->hash(data)`
  unfoldable pub hash_new : List ℕ → Outcome (List ℕ)
  hash_new data' = f.digest (f.update f.create_hash data') >>= λ p. done p.0

  -- `while (h.size() < block_size)`, with fuel.
  unfoldable pub extend : ℕ → List ℕ → List ℕ → Outcome (List ℕ)
  unfolding hash_new
  extend zero key h = stuck
  extend (suc fuel) key h =
      let rest = hash_new (h ++ key) >>= λ b. extend fuel key (h ++ b) in
      if ltb (length h) f.block_size then rest else done h

  -- The fuel: a round for each byte of a block, and the last test.
  unfoldable pub block_key : List ℕ → Outcome (List ℕ)
  unfolding hash_new extend
  block_key key =
      if ltb f.block_size (length key)
      then hash_new key >>= extend (f.block_size + 1) key >>= read_bytes f.block_size
      else done (key ++ replicate (f.block_size - length key) 0)

  unfoldable pub hmac_reset : Hmac H → Hmac H
  hmac_reset h = record h { message_hash = f.update (f.reset h.message_hash) h.i_key_pad }

  unfoldable pub new_hmac : List ℕ → Outcome (Hmac H)
  unfolding block_key hmac_reset
  new_hmac key = block_key key >>= λ k. done (
      hmac_reset record {
        i_key_pad = bytes_xor_all k 0x36;
        o_key_pad = bytes_xor_all k 0x5c;
        message_hash = f.create_hash;
      })

  unfoldable pub hmac_update : Hmac H → List ℕ → Hmac H
  hmac_update h data' = record h { message_hash = f.update h.message_hash data' }

  unfoldable pub hmac_digest : Hmac H → Outcome (List ℕ × Hmac H)
  unfolding hash_new
  hmac_digest h = f.digest h.message_hash >>= λ a.
      hash_new (h.o_key_pad ++ a.0) >>= λ b. done (b, record h { message_hash = a.1 })

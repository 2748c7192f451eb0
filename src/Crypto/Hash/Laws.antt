-- ===== src/Crypto/Hash/Laws.antt =====
-- The class `Hmac` against RFC 2104, for keys of at most one block.
use jcu_dparm.Common.{ℕ, ◌+◌, ◌-◌, ◌^◌, ◌≤◌, ◌<◌, ◌≡◌, refl, sym, ap, subst, arith, List, [], ◌++◌}
use jcu_dparm.Common.{bit_xor, false, ltb, length, replicate, length-append, length-replicate}
use jcu_dparm.Common.{done, ◌>>=◌, append_assoc, append-nil, length-map}
use jcu_dparm.Crypto.Hash.{HashFactory, IsHash, Hmac, bytes_xor_all, hash_new, block_key}
use jcu_dparm.Crypto.Hash.{new_hmac, hmac_reset, hmac_update, hmac_digest}

module _ {H : Type 0} (f : HashFactory H) (hash : List ℕ → List ℕ) (law : IsHash f hash) where
  -- The key with zeros up to a block, XORed with a byte.
  unfoldable pub key_pad : List ℕ → ℕ → List ℕ
  key_pad key value = bytes_xor_all (key ++ replicate (f.block_size - length key) 0) value

  -- RFC 2104.
  unfoldable pub hmac : List ℕ → List ℕ → List ℕ
  unfolding key_pad
  hmac key m = hash (key_pad key 0x5c ++ hash (key_pad key 0x36 ++ m))

  -- The object was made for the key, and its inner hash may be in any state.
  pub record IsKeyed (key : List ℕ) (h : Hmac H) : Type 0 where
    pub inner : h.i_key_pad ≡ key_pad key 0x36
    pub outer : h.o_key_pad ≡ key_pad key 0x5c

  -- It has also taken the bytes `m` since it was made or reset.
  pub record HmacTaken (key : List ℕ) (h : Hmac H) (m : List ℕ) : Type 0 where
    pub keyed : IsKeyed key h
    pub taken : law.Taken h.message_hash (key_pad key 0x36 ++ m)

  module _ (key : List ℕ) (short : length key ≤ f.block_size)
      (sizes : f.block_size + f.digest_size < 2 ^ 31) where
    length-key_pad : (value : ℕ) → length (key_pad key value) ≡ f.block_size
    unfolding key_pad
    length-key_pad value =
        let zeros = length-replicate {A = ℕ} (f.block_size - length key) 0 in
        omega (
          arith,
          zeros,
          length-append key (replicate (f.block_size - length key) 0),
          length-map (λ b. bit_xor b value) (key ++ replicate (f.block_size - length key) 0),
        )

    pub hmac_reset-Taken : (h : Hmac H) → IsKeyed key h → HmacTaken key (hmac_reset f h) []
    unfolding hmac_reset
    hmac_reset-Taken h keyed = record {
      keyed = record { inner = keyed.inner; outer = keyed.outer };
      taken =
          subst (λ t. law.Taken (f.update (f.reset h.message_hash) h.i_key_pad) (t ++ []))
            keyed.inner
            (subst (law.Taken (f.update (f.reset h.message_hash) h.i_key_pad))
              (sym (append-nil h.i_key_pad))
              (law.updated (f.reset h.message_hash) [] h.i_key_pad (law.reset_taken h.message_hash)
                (omega (arith, ap length keyed.inner, length-key_pad 0x36))));
    }

    pub new_hmac-Taken : (h : Hmac H) × (new_hmac f key ≡ done h) × HmacTaken key h []
    unfolding new_hmac block_key key_pad
    new_hmac-Taken =
        let fits : ltb f.block_size (length key) ≡ false = ground arith in
        rw fits (_, refl, hmac_reset-Taken _ record { inner = refl; outer = refl })

    pub hmac_update-Taken :
        (h : Hmac H) (m d : List ℕ)
        → length d < 2 ^ 32 - 64
        → HmacTaken key h m
        → HmacTaken key (hmac_update f h d) (m ++ d)
    unfolding hmac_update
    hmac_update-Taken h m d small taken = record {
      keyed = record { inner = taken.keyed.inner; outer = taken.keyed.outer };
      taken =
          subst (law.Taken (f.update h.message_hash d)) (append_assoc (key_pad key 0x36) m d)
            (law.updated h.message_hash (key_pad key 0x36 ++ m) d taken.taken small);
    }

    hash_new_lem : (d : List ℕ) → length d < 2 ^ 32 - 64 → hash_new f d ≡ done (hash d)
    unfolding hash_new
    hash_new_lem d small =
        let (h', e) =
          law.digested (f.update f.create_hash d) d
            (law.updated f.create_hash [] d law.created small) (omega arith) in
        ap (λ o. o >>= λ p. done p.0) e

    -- The digest is the MAC of RFC 2104, and the object can be used again after a reset.
    pub hmac_digest-hmac :
        (h : Hmac H) (m : List ℕ)
        → length m < 2 ^ 60
        → HmacTaken key h m
        → (h' : Hmac H) × (hmac_digest f h ≡ done (hmac key m, h')) × IsKeyed key h'
    unfolding hmac_digest hmac
    hmac_digest-hmac h m small taken =
        let (g, e) =
          law.digested h.message_hash (key_pad key 0x36 ++ m) taken.taken
            (omega (arith, length-append (key_pad key 0x36) m, length-key_pad 0x36)) in
        let inner = hash (key_pad key 0x36 ++ m) in
        let outer = hash_new_lem (key_pad key 0x5c ++ inner) (
          omega (
            arith,
            length-append (key_pad key 0x5c) inner,
            length-key_pad 0x5c,
            law.size (key_pad key 0x36 ++ m),
          )) in
        (
          record h { message_hash = g },
          rw (e, taken.keyed.outer, outer) refl,
          record { inner = taken.keyed.inner; outer = taken.keyed.outer },
        )

    -- For a key of at most one block, an object is made, and computes the HMAC of RFC 2104 of a
    -- message, and after a reset that of another message, over the function of its hash objects;
    -- the messages are shorter than 2^32 - 64 bytes, and the two sizes of the hash function sum to
    -- less than 2^31.
    pub hmac_digest-hmac_reset :
        (m n : List ℕ)
        → length m < 2 ^ 32 - 64
        → length n < 2 ^ 32 - 64
        → (h : Hmac H) × (h' : Hmac H) × (h'' : Hmac H) × (new_hmac f key ≡ done h)
          × (hmac_digest f (hmac_update f h m) ≡ done (hmac key m, h'))
          × (hmac_digest f (hmac_update f (hmac_reset f h') n) ≡ done (hmac key n, h''))
    hmac_digest-hmac_reset m n small small' =
        let (h, made, fresh) = new_hmac-Taken in
        let (h', first, keyed) =
          hmac_digest-hmac _ m (omega arith) (hmac_update-Taken h [] m small fresh) in
        let again = hmac_update-Taken _ [] n small' (hmac_reset-Taken h' keyed) in
        let (h'', second, keyed') = hmac_digest-hmac _ n (omega arith) again in
        (h, h', h'', made, first, second)

-- ===== src/Crypto/Runs.antt =====
-- Test vectors and runs at concrete input.
use jcu_dparm.Common.{ℕ, ◌≡◌, refl, arith, List, [], ◌∷◌, replicate, take}
use jcu_dparm.Common.{Outcome, done, ◌>>=◌}
use jcu_dparm.Crypto.Compress.{sha1_transform, rounds, block_words, expand, round, rol, mix}
use jcu_dparm.Crypto.Sha1.{
  Sha1, sha1_factory, sha1_final, update, sha1_init, sha1_update, pad_zeros, whole_blocks, wiped,
}
use jcu_dparm.Crypto.Sha1.Padding.{updates, concat, sha1, sha1_factory-IsHash, sha1_final-updates}
use jcu_dparm.Crypto.Hash.{
  Hmac, hash_new, extend, block_key, new_hmac, hmac_reset, hmac_update, hmac_digest,
}
use jcu_dparm.Crypto.Hash.Laws.{hmac, hmac_digest-hmac_reset}
use jcu_dparm.Crypto.Pbkdf2.{PbeKeySpec, bytes_xor, iterate, derive_block, derive_blocks, pbkdf2}
use jcu_dparm.Crypto.Pbkdf2.Derived.{derived}
use jcu_dparm.Crypto.Pbkdf2.Equivalence.{pbkdf2_lem}

-- "abc"
abc_digest :
    sha1_final (update sha1_init (0x61 ∷ 0x62 ∷ 0x63 ∷ []))
    ≡ done (
      (0xa9 ∷ 0x99 ∷ 0x3e ∷ 0x36 ∷ 0x47 ∷ 0x6 ∷ 0x81 ∷ 0x6a ∷ 0xba ∷ 0x3e ∷ 0x25 ∷ 0x71 ∷ 0x78
          ∷ 0x50 ∷ 0xc2 ∷ 0x6c ∷ 0x9c ∷ 0xd0 ∷ 0xd8 ∷ 0x9d ∷ []),
      wiped,
    )
unfolding sha1_factory sha1_final update sha1_init sha1_update pad_zeros whole_blocks sha1_transform
    rounds block_words expand round rol mix
abc_digest = refl

-- 130 bytes in three pieces, of which the second is longer than a block.
abbrev pieces : List (List ℕ)
pieces = replicate 30 0x61 ∷ replicate 99 0x62 ∷ (0x63 ∷ []) ∷ []

digest_of_pieces :
    sha1_final (updates pieces sha1_init)
    ≡ done (
      (0xf1 ∷ 0x19 ∷ 0x32 ∷ 0x2a ∷ 0x58 ∷ 0x99 ∷ 0xcf ∷ 0x34 ∷ 0x82 ∷ 0x3 ∷ 0x14 ∷ 0xf5 ∷ 0xa3
          ∷ 0xbc ∷ 0xa4 ∷ 0x9f ∷ 0x32 ∷ 0xd0 ∷ 0x14 ∷ 0xa4 ∷ []),
      wiped,
    )
unfolding sha1_factory sha1_final update sha1_init sha1_update pad_zeros whole_blocks sha1_transform
    rounds block_words expand round rol mix updates
digest_of_pieces = refl

sha1_final-updates_example :
    sha1_final (updates pieces sha1_init) ≡ done (sha1 (concat pieces), wiped)
sha1_final-updates_example =
    sha1_final-updates pieces (omega arith, (omega arith, (omega arith, tt))) (omega arith)

abbrev mac : List ℕ → List ℕ → Outcome (List ℕ)
mac key m = new_hmac sha1_factory key >>= λ h.
    hmac_digest sha1_factory (hmac_update sha1_factory h m) >>= λ p. done p.0

abbrev jefe : List ℕ
jefe = (0x4a ∷ 0x65 ∷ 0x66 ∷ 0x65 ∷ [])

abbrev question : List ℕ
question =
    (0x77 ∷ 0x68 ∷ 0x61 ∷ 0x74 ∷ 0x20 ∷ 0x64 ∷ 0x6f ∷ 0x20 ∷ 0x79 ∷ 0x61 ∷ 0x20 ∷ 0x77 ∷ 0x61 ∷ 0x6e
      ∷ 0x74 ∷ 0x20 ∷ 0x66 ∷ 0x6f ∷ 0x72 ∷ 0x20 ∷ 0x6e ∷ 0x6f ∷ 0x74 ∷ 0x68 ∷ 0x69 ∷ 0x6e ∷ 0x67
      ∷ 0x3f ∷ [])

-- The second test case of RFC 2202.
mac-jefe :
    mac jefe question
    ≡ done (
        0xef ∷ 0xfc ∷ 0xdf ∷ 0x6a ∷ 0xe5 ∷ 0xeb ∷ 0x2f ∷ 0xa2 ∷ 0xd2 ∷ 0x74 ∷ 0x16 ∷ 0xd5 ∷ 0xf1
        ∷ 0x84 ∷ 0xdf ∷ 0x9c ∷ 0x25 ∷ 0x9a ∷ 0x7c ∷ 0x79 ∷ [])
unfolding sha1_factory sha1_final update sha1_init sha1_update pad_zeros whole_blocks sha1_transform
    rounds block_words expand round rol mix new_hmac block_key hmac_reset hmac_update hmac_digest
    hash_new
mac-jefe = refl

-- A key of 80 bytes 0xaa. The MAC of RFC 2104 is another: it starts with c31de1c1.
mac-long_key :
    mac (replicate 80 0xaa) (0x48 ∷ 0x69 ∷ [])
    ≡ done (
        0xc9 ∷ 0xfa ∷ 0x3 ∷ 0x7a ∷ 0x67 ∷ 0xe7 ∷ 0x11 ∷ 0xba ∷ 0xfa ∷ 0xfd ∷ 0x93 ∷ 0x58 ∷ 0x89
        ∷ 0xb1 ∷ 0xfe ∷ 0x2b ∷ 0xb1 ∷ 0x33 ∷ 0xf1 ∷ 0x4b ∷ [])
unfolding sha1_factory sha1_final update sha1_init sha1_update pad_zeros whole_blocks sha1_transform
    rounds block_words expand round rol mix new_hmac block_key hmac_reset hmac_update hmac_digest
    hash_new extend
mac-long_key = refl

hmac_digest-hmac_reset_example :
    (h : Hmac Sha1) × (h' : Hmac Sha1) × (h'' : Hmac Sha1) × (new_hmac sha1_factory jefe ≡ done h)
    × (hmac_digest sha1_factory (hmac_update sha1_factory h question)
        ≡ done (hmac sha1_factory sha1 sha1_factory-IsHash jefe question, h'))
    × (hmac_digest sha1_factory (hmac_update sha1_factory (hmac_reset sha1_factory h') jefe)
        ≡ done (hmac sha1_factory sha1 sha1_factory-IsHash jefe jefe, h''))
unfolding sha1_factory
hmac_digest-hmac_reset_example =
    hmac_digest-hmac_reset sha1_factory sha1 sha1_factory-IsHash jefe (omega arith) (omega arith)
      question jefe (omega arith) (omega arith)

abbrev salted : PbeKeySpec
salted = record { iteration = 1; key_length = 20; salt = (0x73 ∷ 0x61 ∷ 0x6c ∷ 0x74 ∷ []) }

-- The first test case of RFC 6070.
abbrev password_text : List ℕ
password_text = (0x70 ∷ 0x61 ∷ 0x73 ∷ 0x73 ∷ 0x77 ∷ 0x6f ∷ 0x72 ∷ 0x64 ∷ [])

salted_key :
    pbkdf2 sha1_factory salted password_text
    ≡ done (
        0xc ∷ 0x60 ∷ 0xc8 ∷ 0xf ∷ 0x96 ∷ 0x1f ∷ 0xe ∷ 0x71 ∷ 0xf3 ∷ 0xa9 ∷ 0xb5 ∷ 0x24 ∷ 0xaf ∷ 0x60
        ∷ 0x12 ∷ 0x6 ∷ 0x2f ∷ 0xe0 ∷ 0x37 ∷ 0xa6 ∷ [])
unfolding sha1_factory sha1_final update sha1_init sha1_update pad_zeros whole_blocks sha1_transform
    rounds block_words expand round rol mix new_hmac block_key hmac_reset hmac_update hmac_digest
    hash_new pbkdf2 derive_blocks derive_block iterate bytes_xor
salted_key = refl

pbkdf2_lem_example :
    pbkdf2 sha1_factory salted password_text
    ≡ done (take 20 (derived sha1_factory sha1 sha1_factory-IsHash password_text salted 1 1))
unfolding sha1_factory
pbkdf2_lem_example =
    pbkdf2_lem sha1_factory sha1 sha1_factory-IsHash password_text salted (omega arith)
      (omega arith) (omega arith) 1 (omega arith) (omega arith) (omega arith) (omega arith)

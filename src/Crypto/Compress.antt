-- ===== src/Crypto/Compress.antt =====
-- `sha1Transform` of src/crypto/hash_sha_1.cc with its macros: the compression of one block of 64
-- bytes, on a little-endian host.
use jcu_dparm.Common.{ℕ, zero, suc, ◌+◌, ◌-◌, ◌%◌, List, [], ◌∷◌}
use jcu_dparm.Common.{
  if◌then◌else◌, ltb, bit_and, bit_or, bit_xor, u32, ◌<<<◌, ◌>>>◌, of_le32, get_or, set,
}

-- Five `uint32_t`: `state_`, and the working variables in the order of the next round.
pub record Regs : Type 0 where
  pub a : ℕ
  pub b : ℕ
  pub c : ℕ
  pub d : ℕ
  pub e : ℕ

unfoldable pub rol : ℕ → ℕ → ℕ
rol value bits = bit_or (u32 (value <<< bits)) (value >>> (32 - bits))

-- The union of 64 bytes and 16 words.
unfoldable pub block_words : List ℕ → List ℕ
block_words (p ∷ q ∷ r ∷ s ∷ bytes) = of_le32 p q r s ∷ block_words bytes
block_words _ = []

-- `blk0(i)` for the first 16 rounds, and `blk(i)` after them: the word, which is also stored.
unfoldable pub expand : ℕ → List ℕ → ℕ
unfolding rol
expand i block =
    if ltb i 16
    then (let l = get_or block i 0 in
        bit_or (bit_and (rol l 24) 0xFF00FF00) (bit_and (rol l 8) 0x00FF00FF))
    else rol
        (bit_xor
          (bit_xor (bit_xor (get_or block ((i + 13) % 16) 0) (get_or block ((i + 8) % 16) 0))
            (get_or block ((i + 2) % 16) 0))
          (get_or block (i % 16) 0))
        1

-- The function and the constant of R0 and R1, of R2, of R3 and of R4.
unfoldable pub mix : ℕ → ℕ → ℕ → ℕ → ℕ
mix i w x y =
    if ltb i 20
    then bit_xor (bit_and w (bit_xor x y)) y + 0x5A827999
    else if ltb i 40
    then bit_xor (bit_xor w x) y + 0x6ED9EBA1
    else if ltb i 60
    then bit_or (bit_and (bit_or w x) y) (bit_and w x) + 0x8F1BBCDC
    else bit_xor (bit_xor w x) y + 0xCA62C1D6

-- One round, `R(v,w,x,y,z,i)`. The next round is called with `(z,v,w,x,y)`.
unfoldable pub round : ℕ → ℕ → Regs → Regs
unfolding rol mix
round i word r = record {
  a = u32 (r.e + mix i r.b r.c r.d + word + rol r.a 5);
  b = r.a;
  c = rol r.b 30;
  d = r.c;
  e = r.d;
}

-- `n` rounds from round `i` on. After 80 of them the variables are in their own places again.
unfoldable pub rounds : ℕ → ℕ → List ℕ → Regs → Regs
unfolding round expand
rounds zero i block r = r
rounds (suc n) i block r =
    let word = expand i block in rounds n (i + 1) (set block (i % 16) word) (round i word r)

unfoldable pub sha1_transform : Regs → List ℕ → Regs
unfolding rounds block_words
sha1_transform state buffer =
    let r = rounds 80 0 (block_words buffer) state in
    record {
      a = u32 (state.a + r.a);
      b = u32 (state.b + r.b);
      c = u32 (state.c + r.c);
      d = u32 (state.d + r.d);
      e = u32 (state.e + r.e);
    }

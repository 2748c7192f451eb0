-- ===== src/Crypto/Sha1.antt =====
-- The class `HashSha1` of src/crypto/hash_sha_1.cc.
pub mod Blocks
pub mod Taken
pub mod Padding
use jcu_dparm.Common.{
  ℕ, zero, suc, ◌+◌, ◌-◌, ◌*◌, ◌/◌, ◌%◌, ◌^◌, List, [], ◌∷◌, ◌++◌, Bool, true, false, not,
}
use jcu_dparm.Common.{if◌then◌else◌, ltb, ◌==◌, bit_and, u8, u32, ◌<<<◌, ◌>>>◌}
use jcu_dparm.Common.{length, take, drop, replicate}
use jcu_dparm.Common.{Outcome, done, stuck, ◌>>=◌}
use jcu_dparm.Crypto.Hash.{HashFactory}
use jcu_dparm.Crypto.Compress.{Regs, sha1_transform}

pub record Sha1 : Type 0 where
  pub state : Regs
  -- `count_[0]` and `count_[1]`, the low and the high word of the number of bits
  pub count_low : ℕ
  pub count_high : ℕ
  pub buffer : List ℕ

unfoldable pub sha1_init : Sha1
sha1_init = record {
  state = record { a = 0x67452301; b = 0xEFCDAB89; c = 0x98BADCFE; d = 0x10325476; e = 0xC3D2E1F0 };
  count_low = 0;
  count_high = 0;
  buffer = replicate 64 0;
}

-- `memcpy(&buffer_[j], bytes, n)`.
abbrev pub copy_at : ℕ → List ℕ → List ℕ → List ℕ
copy_at j bytes buffer = take j buffer ++ (bytes ++ drop (j + length bytes) buffer)

-- `for (; i + 63 < len; i += 64)`: the blocks that the data holds whole, and what is left. There
-- are at most as many rounds as the fuel, since each takes 64 bytes; `i + 63` does not wrap for
-- data of less than 2^32 - 64 bytes.
unfoldable pub whole_blocks : ℕ → Regs → List ℕ → Regs × List ℕ
whole_blocks zero state data' = (state, data')
whole_blocks (suc fuel) state data' =
    let rest = whole_blocks fuel (sha1_transform state (take 64 data')) (drop 64 data') in
    if ltb 63 (length data') then rest else (state, data')

-- `(count_[0] >> 3) & 63`.
abbrev pub buffer_index : ℕ → ℕ
buffer_index count_low = bit_and (count_low >>> 3) 63

-- `sha1Update`, where `len` is the length of the data.
unfoldable pub sha1_update : Sha1 → List ℕ → Sha1
unfolding whole_blocks
sha1_update s data' =
    let len = length data' in
    let j = buffer_index s.count_low in
    let low = u32 (s.count_low + len * 2 ^ 3) in
    let carry = if ltb low (u32 (len * 2 ^ 3)) then 1 else 0 in
    let high = u32 (s.count_high + carry + (len >>> 29)) in
    if ltb 63 (u32 (j + len))
    then (let i = 64 - j in
        let filled = copy_at j (take i data') s.buffer in
        let (state, rest) =
          whole_blocks (len / 64 + 1) (sha1_transform s.state filled) (drop i data') in
        record {
          state = state;
          count_low = low;
          count_high = high;
          buffer = copy_at 0 rest filled;
        })
    else record {
      state = s.state;
      count_low = low;
      count_high = high;
      buffer = copy_at j data' s.buffer;
    }

-- `HashSha1::update`: the length is passed on as a `uint32_t`.
unfoldable pub update : Sha1 → List ℕ → Sha1
unfolding sha1_update
update s data' = sha1_update s (take (u32 (length data')) data')

abbrev pub be32 : ℕ → List ℕ
be32 x = u8 (x >>> 24) ∷ u8 (x >>> 16) ∷ u8 (x >>> 8) ∷ u8 x ∷ []

-- `while ((count_[0] & 504) != 448)`, with fuel.
unfoldable pub pad_zeros : ℕ → Sha1 → Outcome Sha1
unfolding sha1_update
pad_zeros zero s = stuck
pad_zeros (suc fuel) s =
    let rest = pad_zeros fuel (sha1_update s (0 ∷ [])) in
    if bit_and s.count_low 504 == 448 then done s else rest

abbrev pub regs_bytes : Regs → List ℕ
regs_bytes r = be32 r.a ++ (be32 r.b ++ (be32 r.c ++ (be32 r.d ++ be32 r.e)))

abbrev pub wiped : Sha1
wiped = record {
  state = record { a = 0; b = 0; c = 0; d = 0; e = 0 };
  count_low = 0;
  count_high = 0;
  buffer = replicate 64 0;
}

-- `sha1Final`: the digest, and the object that it has wiped.
unfoldable pub sha1_final : Sha1 → Outcome (List ℕ × Sha1)
unfolding sha1_update pad_zeros
sha1_final s =
    let finalcount = be32 s.count_high ++ be32 s.count_low in
    pad_zeros 64 (sha1_update s (0x80 ∷ [])) >>= λ p.
    done (regs_bytes (sha1_update p finalcount).state, wiped)

-- `HashSha1Factory` and the methods of its objects.
unfoldable pub sha1_factory : HashFactory Sha1
unfolding sha1_init update sha1_final
sha1_factory = record {
  digest_size = 20;
  block_size = 64;
  create_hash = sha1_init;
  update = update;
  digest = sha1_final;
  reset = λ s. sha1_init;
}

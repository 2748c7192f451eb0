-- ===== src/Crypto/Sha1/Taken.antt =====
-- `HashSha1` against the message that it has been given: the blocks that are done, the bytes that
-- wait in the buffer, and the count of bits, through every call of `update`.
use jcu_dparm.Common.{
  ℕ, suc, ◌+◌, ◌-◌, ◌*◌, ◌/◌, ◌%◌, ◌^◌, ◌≤◌, ◌<◌, ◌≡◌, refl, sym, ap, ◌∙◌, arith,
}
use jcu_dparm.Common.{List, [], ◌++◌, if◌then◌else◌, ltb, inl, inr, Bool-cases}
use jcu_dparm.Common.{u32}
use jcu_dparm.Common.{length, take, drop, length-take, length-drop, length-append}
use jcu_dparm.Common.{drop-add, take-append_long, drop-append_long, drop-append_short, take_all}
use jcu_dparm.Common.{take-append}
use jcu_dparm.Common.Bits.{bit_and_ones}
use jcu_dparm.Crypto.Compress.{sha1_transform}
use jcu_dparm.Crypto.Sha1.{
  Sha1, sha1_init, sha1_update, update, buffer_index, copy_at, whole_blocks,
}
use jcu_dparm.Crypto.Sha1.Blocks.{blocks, blocks-add, blocks-append, whole_blocks_lem}
use jcu_dparm.Crypto.Sha1.Blocks.{length-copy_at, take-copy_at}

-- The object has taken the bytes `m`.
pub record Holds (s : Sha1) (m : List ℕ) : Type 0 where
  pub q : ℕ
  pub r : ℕ
  pub split : length m ≡ 64 * q + r
  pub part : r < 64
  pub done_blocks : s.state ≡ blocks q sha1_init.state m
  pub waiting : take r s.buffer ≡ drop (64 * q) m
  pub room : length s.buffer ≡ 64
  pub low : s.count_low ≡ 8 * length m % 2 ^ 32
  pub high : s.count_high ≡ 8 * length m / 2 ^ 32 % 2 ^ 32

pub sha1_init-Holds : Holds sha1_init []
unfolding sha1_init blocks
sha1_init-Holds = record {
  q = 0;
  r = 0;
  split = refl;
  part = omega arith;
  done_blocks = refl;
  waiting = refl;
  room = refl;
  low = refl;
  high = refl;
}

module _ {s : Sha1} {m : List ℕ} (h : Holds s m) (d : List ℕ) where
  open h use {q, r}

  buffer_index_lem : buffer_index s.count_low ≡ r
  buffer_index_lem = omega (arith, bit_and_ones 6 (s.count_low / 2 ^ 3), h.low, h.split, h.part)

  total : length (m ++ d) ≡ length m + length d
  total = length-append m d

  new_low : u32 (s.count_low + length d * 2 ^ 3) ≡ 8 * length (m ++ d) % 2 ^ 32
  new_low = omega (arith, h.low, total)

  new_high :
      u32 (
        s.count_high
        + (if ltb (u32 (s.count_low + length d * 2 ^ 3)) (u32 (length d * 2 ^ 3)) then 1 else 0)
        + length d / 2 ^ 29)
      ≡ 8 * length (m ++ d) / 2 ^ 32 % 2 ^ 32
  new_high = ground (arith, h.low, h.high, total)

  -- The buffer is not filled up.
  short :
      {t : Sha1}
      → r + length d < 64
      → t.state ≡ s.state
      → t.buffer ≡ copy_at r d s.buffer
      → t.count_low ≡ 8 * length (m ++ d) % 2 ^ 32
      → t.count_high ≡ 8 * length (m ++ d) / 2 ^ 32 % 2 ^ 32
      → Holds t (m ++ d)
  short le es eb el eh = record {
    q = q;
    r = r + length d;
    split = omega (arith, total, h.split);
    part = le;
    done_blocks =
        es ∙ h.done_blocks ∙ sym (blocks-append q sha1_init.state m d (omega (arith, h.split)));
    waiting =
        ap (take (r + length d)) eb
        ∙ take-copy_at r d s.buffer (omega (arith, h.room))
        ∙ ap (λ t. t ++ d) h.waiting
        ∙ sym (drop-append_short (64 * q) m d (omega (arith, h.split)));
    room = ap length eb ∙ length-copy_at r d s.buffer (omega (arith, h.room)) ∙ h.room;
    low = el;
    high = eh;
  }

  -- The buffer is filled up with `64 - r` bytes, and `k` blocks more are whole.
  module _ (long : 64 ≤ r + length d) where
    abbrev filled : List ℕ
    filled = copy_at r (take (64 - r) d) s.buffer

    abbrev rest : List ℕ
    rest = drop (64 - r) d

    abbrev k : ℕ
    k = length rest / 64

    length-first : length (take (64 - r) d) ≡ 64 - r
    length-first = omega (arith, length-take (64 - r) d)

    length-rest : length rest ≡ length d - (64 - r)
    length-rest = length-drop (64 - r) d

    length-filled : length filled ≡ 64
    length-filled =
        length-copy_at r (take (64 - r) d) s.buffer (omega (arith, h.room, h.part, length-first))
        ∙ h.room

    length-waiting : length (drop (64 * q) m) ≡ r
    length-waiting = omega (arith, length-drop (64 * q) m, h.split)

    whole : 64 ≡ r + length (take (64 - r) d)
    whole = omega (arith, length-first, h.part)

    missing : length (drop (64 * q) m) + (64 - r) ≡ 64
    missing = omega (arith, length-waiting, h.part)

    filled_lem : filled ≡ take 64 (drop (64 * q) m ++ d)
    filled_lem =
        sym (take_all 64 filled (omega (arith, length-filled)))
        ∙ ap (λ n. take n filled) whole
        ∙ take-copy_at r (take (64 - r) d) s.buffer (omega (arith, h.room, h.part, length-first))
        ∙ ap (λ t. t ++ take (64 - r) d) h.waiting
        ∙ sym (take-append_long (64 - r) (drop (64 * q) m) d)
        ∙ ap (λ n. take n (drop (64 * q) m ++ d)) missing

    rest_lem : rest ≡ drop 64 (drop (64 * q) m ++ d)
    rest_lem =
        sym (drop-append_long (64 - r) (drop (64 * q) m) d)
        ∙ ap (λ n. drop n (drop (64 * q) m ++ d)) missing

    after : drop (64 * q) (m ++ d) ≡ drop (64 * q) m ++ d
    after = drop-append_short (64 * q) m d (omega (arith, h.split))

    state_lem :
        (n : ℕ)
        → blocks n (sha1_transform s.state filled) rest
          ≡ blocks (q + suc n) sha1_init.state (m ++ d)
    unfolding blocks
    state_lem n = sym (
        blocks-add q (suc n) sha1_init.state (m ++ d)
        ∙ ap (λ t. blocks (suc n) t (drop (64 * q) (m ++ d))) start
        ∙ ap (λ t. blocks (suc n) s.state t) after
        ∙ ap (λ t. blocks n (sha1_transform s.state t) (drop 64 (drop (64 * q) m ++ d)))
            (sym filled_lem)
        ∙ ap (λ t. blocks n (sha1_transform s.state filled) t) (sym rest_lem))
      where
        start : blocks q sha1_init.state (m ++ d) ≡ s.state
        start = blocks-append q sha1_init.state m d (omega (arith, h.split)) ∙ sym h.done_blocks

    loop_lem :
        whole_blocks (length d / 64 + 1) (sha1_transform s.state filled) rest
        ≡ (blocks k (sha1_transform s.state filled) rest, drop (64 * k) rest)
    loop_lem =
        whole_blocks_lem (length d / 64 + 1) k (sha1_transform s.state filled) rest (omega arith)
          (omega arith) (omega (arith, length-rest))

    length-last : length (drop (64 * k) rest) ≡ length rest % 64
    length-last = omega (arith, length-drop (64 * k) rest)

    long_Holds :
        {t : Sha1}
        → t.state ≡ blocks k (sha1_transform s.state filled) rest
        → t.buffer ≡ copy_at 0 (drop (64 * k) rest) filled
        → t.count_low ≡ 8 * length (m ++ d) % 2 ^ 32
        → t.count_high ≡ 8 * length (m ++ d) / 2 ^ 32 % 2 ^ 32
        → Holds t (m ++ d)
    long_Holds es eb el eh = record {
      q = q + suc k;
      r = length rest % 64;
      split = omega (arith, total, h.split, length-rest, long, h.part);
      part = omega arith;
      done_blocks = es ∙ state_lem k;
      waiting =
          ap (take (length rest % 64)) eb
          ∙ ap (λ n. take n (copy_at 0 (drop (64 * k) rest) filled)) (sym length-last)
          ∙ start_copy
          ∙ same_rest;
      room = ap length eb ∙ length-copy_at 0 (drop (64 * k) rest) filled fits ∙ length-filled;
      low = el;
      high = eh;
    }
      where
        fits : 0 + length (drop (64 * k) rest) ≤ length filled
        fits = omega (arith, length-last, length-filled)

        start_copy :
            take (length (drop (64 * k) rest)) (copy_at 0 (drop (64 * k) rest) filled)
            ≡ drop (64 * k) rest
        start_copy = take-append (drop (64 * k) rest) _

        same_rest : drop (64 * k) rest ≡ drop (64 * (q + suc k)) (m ++ d)
        same_rest = sym (
            ap (λ n. drop n (m ++ d)) steps
            ∙ drop-add (64 * q) (64 + 64 * k) (m ++ d)
            ∙ ap (drop (64 + 64 * k)) after
            ∙ drop-add 64 (64 * k) (drop (64 * q) m ++ d)
            ∙ ap (drop (64 * k)) (sym rest_lem))
          where
            steps : 64 * (q + suc k) ≡ 64 * q + (64 + 64 * k)
            steps = omega arith

-- A call of `sha1Update` appends its bytes to what the object has taken.
pub sha1_update-Holds :
    {s : Sha1} {m : List ℕ} (d : List ℕ)
    → length d < 2 ^ 32 - 64
    → Holds s m
    → Holds (sha1_update s d) (m ++ d)
unfolding sha1_update
sha1_update-Holds {s} {m} d small h =
    rw (buffer_index_lem h d) (elim (Bool-cases (ltb 63 (u32 (h.r + length d)))) [
      | inl big ↦
          (let long : 64 ≤ h.r + length d = ground arith in
            rw (big, loop_lem h d long)
              (long_Holds h d long refl refl (new_low h d) (new_high h d)))
      | inr fits ↦ rw fits (short h d (ground arith) refl refl (new_low h d) (new_high h d))
    ])

pub update-Holds :
    {s : Sha1} {m : List ℕ} (d : List ℕ)
    → length d < 2 ^ 32 - 64
    → Holds s m
    → Holds (update s d) (m ++ d)
unfolding update
update-Holds {s} {m} d small h =
    let narrow : u32 (length d) ≡ length d = omega arith in
    rw (narrow, take_all (length d) d (omega arith)) (sha1_update-Holds d small h)

-- ===== src/Tcg/Token/Value.antt =====
-- What the getters give back of the forms that the command writes.
use jcu_dparm.Common.{
  ℕ, zero, suc, ◌+◌, ◌-◌, ◌*◌, ◌/◌, ◌%◌, ◌^◌, ◌≤◌, ◌<◌, ◌≡◌, sym, ap, ◌∙◌, arith,
}
use jcu_dparm.Common.{List, [], ◌∷◌, true, false, ◌==◌, lt→ltb}
use jcu_dparm.Common.{if◌then◌else◌, length, get_elem?, some, u64}
use jcu_dparm.Common.{Outcome, done, ◌>>=◌, read, mod-times_byte, byte_times, bit_or}
use jcu_dparm.Common.Bits.{bit_or_low, bit_and_ones, top_bit, second_bit, third_bit}
use native.Mathlib.Nat.{one-le-pow, pow-le-pow_right, mod-lt, mod-eq_of_lt, mul_comm}
use native.Mathlib.Numerals.{towards_suc}
use jcu_dparm.Err.{success, returning}
use jcu_dparm.Tcg.Token.{gather, get_uint64, get_bytes, is_clear}
use jcu_dparm.Tcg.Command.Encoding.{big_endian, number_encoding, string_encoding, length-big_endian}

-- The byte with `b` bytes behind it.
abbrev byte_of : ℕ → ℕ → ℕ
byte_of v b = v / 2 ^ (b * 8) % 256

get_elem?-big_endian :
    (k i b v : ℕ) → i + b + 1 ≡ k → get_elem? (big_endian k v) i ≡ some (byte_of v b)
unfolding big_endian
get_elem?-big_endian zero i b v h = absurd (omega arith)
get_elem?-big_endian (suc k) zero b v h = ap (λ e. some (byte_of v e)) (omega arith)
get_elem?-big_endian (suc k) (suc i) b v h = get_elem?-big_endian k i b v (omega arith)

one_byte_more : (b : ℕ) → 2 ^ ((b + 1) * 8) ≡ 2 ^ (b * 8) * 256
one_byte_more b = ap (λ (e : ℕ). 2 ^ e) (regroup b) ∙ simp towards_suc (omega arith)
  where
    regroup : (b : ℕ) → (b + 1) * 8 ≡ b * 8 + 8
    regroup b = omega arith

-- One round of the loop: the byte in front of the `8 * b` low bits.
gather_round :
    (b v : ℕ)
    → b < 8
    → bit_or (v % 2 ^ (b * 8)) (u64 (byte_of v b * 2 ^ (b * 8))) ≡ v % 2 ^ ((b + 1) * 8)
gather_round b v h =
    ap (bit_or (v % 2 ^ (b * 8))) (mod-eq_of_lt fits)
    ∙ bit_or_low (b * 8) (byte_of v b) (v % 2 ^ (b * 8))
        (mod-lt v (one-le-pow (b * 8) 2 (omega arith)))
    ∙ sym
        (rw (one_byte_more b) (mod-times_byte v (2 ^ (b * 8)) (one-le-pow (b * 8) 2 (omega arith))))
  where
    bound : 2 ^ (b * 8) ≤ 2 ^ 56
    bound = pow-le-pow_right {n = 2} (omega arith) {i = b * 8} {j = 56} (omega arith)

    fits : byte_of v b * 2 ^ (b * 8) < 2 ^ 64
    fits = grind (arith, byte_times (byte_of v b) (2 ^ (b * 8)) (omega arith), bound)

read_byte : (k i b p v : ℕ) → i + b + 1 ≡ k → read (p ∷ big_endian k v) (suc i) ≡ done (byte_of v b)
read_byte k i b p v h = rw (get_elem?-big_endian k i b v h, read)

gather-suc :
    (buf : List ℕ) (i b w x : ℕ)
    → b < 8
    → read buf (suc i) ≡ done x
    → gather buf (suc i) b w ≡ gather buf i (b + 1) (bit_or w (u64 (x * 2 ^ (8 * b))))
unfolding gather
gather-suc buf i b w x h e = rw (lt→ltb b 8 h) (ap (λ o. o >>= more) e)
  where
    more : ℕ → Outcome ℕ
    more x = gather buf i (b + 1) (bit_or w (u64 (x * 2 ^ (8 * b))))

gather-big_endian :
    (i b k p v : ℕ)
    → i + b ≡ k
    → k ≤ 8
    → gather (p ∷ big_endian k v) i b (v % 2 ^ (b * 8)) ≡ done (v % 2 ^ (k * 8))
gather-big_endian zero b k p v e h =
    unfold gather in ap (λ (n : ℕ). done (v % 2 ^ (n * 8))) (omega arith)
gather-big_endian (suc i) b k p v e h =
    gather-suc (p ∷ big_endian k v) i b (v % 2 ^ (b * 8)) (byte_of v b) (omega arith)
      (read_byte k i b p v (omega arith))
    ∙ rw (mul_comm 8 b, gather_round b v (omega arith))
        (gather-big_endian i (b + 1) k p v (omega arith) h)

-- `getUint64` of a short unsigned atom with up to eight bytes.
short_value :
    (p k v : ℕ)
    → k ≤ 8
    → v < 2 ^ (k * 8)
    → is_clear p 0x80 ≡ false
    → is_clear p 0x40 ≡ true
    → is_clear p 0x10 ≡ true
    → get_uint64 (p ∷ big_endian k v) ≡ done (returning success v)
unfolding get_uint64
short_value p k v h small e8 e4 e1 =
    rw (e8, e4, e1, length-big_endian k v) (ap (λ o. o >>= λ x. done (returning success x)) whole)
  where
    whole : gather (p ∷ big_endian k v) (suc k - 1) 0 0 ≡ done v
    whole =
        ap (λ (n : ℕ). gather (p ∷ big_endian k v) n 0 0) (omega arith)
        ∙ ap (gather (p ∷ big_endian k v) k 0) (omega arith)
        ∙ gather-big_endian k 0 k p v (omega arith) h
        ∙ ap done (mod-eq_of_lt small)

tiny_value : (v : ℕ) → v < 64 → get_uint64 (v ∷ []) ≡ done (returning success v)
unfolding get_uint64
tiny_value v h = ground (arith, top_bit v, second_bit v, bit_and_ones 6 v)

-- Every `uint64_t` comes back from its form.
pub get_uint64-number_encoding :
    (v : ℕ) → v < 2 ^ 64 → get_uint64 (number_encoding v) ≡ done (returning success v)
unfolding number_encoding
get_uint64-number_encoding v h = ground (
  arith,
  tiny_value v,
  short_value 0x81 1 v,
  short_value 0x82 2 v,
  short_value 0x84 4 v,
  short_value 0x88 8 v,
)

-- A text of 1 to 2047 bytes comes back from its form. The empty text comes back as one zero byte.
pub get_bytes-string_encoding :
    (text : List ℕ)
    → length text < 2048
    → get_bytes (string_encoding text)
      ≡ done (returning success (if length text == 0 then 0x00 ∷ [] else text))
unfolding get_bytes string_encoding
get_bytes-string_encoding text h = ground (
  arith,
  top_bit (0xa0 + length text),
  second_bit (0xa0 + length text),
  top_bit (0xd0 + length text / 256),
  second_bit (0xd0 + length text / 256),
  third_bit (0xd0 + length text / 256),
)

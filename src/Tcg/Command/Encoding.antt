-- ===== src/Tcg/Command/Encoding.antt =====
-- What the token writers append, in plain arithmetic.
use jcu_dparm.Common.{ℕ, zero, suc, ◌+◌, ◌*◌, ◌/◌, ◌%◌, ◌^◌, ◌≤◌, ◌<◌, ◌≡◌, refl, sym, ap, ◌∙◌}
use jcu_dparm.Common.{
  Bool, true, false, Bool-cases, inl, inr, List, [], ◌∷◌, arith, bit_or, bit_and, leb, ltb, ltb→lt,
  ◌==◌,
}
use jcu_dparm.Common.{length, length-append, All, All-append, IsByte, if◌then◌else◌, append_assoc}
use jcu_dparm.Common.{u8, append-nil}
use jcu_dparm.Common.Bits.{bit_or_high, bit_or_low, bit_and_ones}
use jcu_dparm.Tcg.Types.{max_buffer_length}
use jcu_dparm.Tcg.Command.{Command, IsValid, cmd_pos, put_byte, put_bytes, check_cmd_buf_write}
use jcu_dparm.Tcg.Command.{add_string_token, put_number, put_wide, add_number_token}

-- The empty text has the form of one zero byte.
unfoldable pub string_encoding : List ℕ → List ℕ
string_encoding text =
    let n = length text in
    if n == 0
    then 0xa1 ∷ 0x00 ∷ []
    else if ltb n 16
    then (0xa0 + n) ∷ text
    else if ltb n 2048
    then (0xd0 + n / 256) ∷ n % 256 ∷ text
    else []

-- The `k` low bytes of a number, highest first.
unfoldable pub big_endian : ℕ → ℕ → List ℕ
big_endian zero v = []
big_endian (suc k) v = v / 2 ^ (k * 8) % 256 ∷ big_endian k v

unfoldable pub number_encoding : ℕ → List ℕ
number_encoding v =
    if ltb v 64
    then v ∷ []
    else if ltb v 0x100
    then 0x81 ∷ big_endian 1 v
    else if ltb v 0x10000
    then 0x82 ∷ big_endian 2 v
    else if ltb v 0x100000000
    then 0x84 ∷ big_endian 4 v
    else 0x88 ∷ big_endian 8 v

pub length-big_endian : (k v : ℕ) → length (big_endian k v) ≡ k
unfolding big_endian
length-big_endian zero v = refl
length-big_endian (suc k) v = ap suc (length-big_endian k v)

pub big_endian-IsByte : (k v : ℕ) → All IsByte (big_endian k v)
unfolding big_endian
big_endian-IsByte zero v = tt
big_endian-IsByte (suc k) v = (omega arith, big_endian-IsByte k v)

-- In a valid buffer the unsigned difference of the check does not wrap.
pub check_cmd_buf_write_lem :
    (c : Command) (need : ℕ)
    → IsValid c
    → check_cmd_buf_write c need ≡ leb (cmd_pos c + need) max_buffer_length
unfolding check_cmd_buf_write
check_cmd_buf_write_lem c need v = ground arith

short_prefix : (n : ℕ) → n < 16 → u8 (bit_or n 0xa0) ≡ 0xa0 + n
short_prefix n h = omega (arith, bit_or_low 4 10 n h)

medium_prefix : (n : ℕ) → n < 2048 → u8 (bit_or 0xd0 (bit_and (n / 2 ^ 8) 0x07)) ≡ 0xd0 + n / 256
medium_prefix n h =
    rw (bit_and_ones 3 (n / 2 ^ 8)) (omega (arith, bit_or_high 3 26 (n / 256 % 8) (omega arith)))

pub put_bytes-put_byte :
    (x : ℕ) (xs : List ℕ) (c : Command) → put_bytes xs (put_byte x c) ≡ put_bytes (x ∷ xs) c
put_bytes-put_byte x xs c = ap (λ t. record c { payload = t }) (append_assoc c.payload (x ∷ []) xs)

-- Room for a text's form, as its branch asks for it, decides whether it is written.
written_if :
    (need : ℕ) (c c1 : Command) (xs : List ℕ)
    → IsValid c
    → need ≡ length xs
    → c1 ≡ put_bytes xs c
    → ◌≡◌ {A = Command × Bool}
        (if check_cmd_buf_write c need then (c1, false) else (c, false))
        ((if leb (cmd_pos c + length xs) max_buffer_length then put_bytes xs c else c), false)
written_if need c c1 xs v e same =
    rw (check_cmd_buf_write_lem c need v, e, same)
      (elim (Bool-cases (leb (cmd_pos c + length xs) max_buffer_length)) [
        | inl fits ↦ rw fits
        | inr full ↦ rw full
      ])

nothing_written : (b : Bool) (c : Command) → c ≡ (if b then put_bytes [] c else c)
nothing_written true c = ap (λ t. record c { payload = t }) (sym (append-nil c.payload))
nothing_written false c = refl

short_form :
    (text : List ℕ) (c : Command)
    → length text < 16
    → put_bytes text (put_byte (u8 (bit_or (length text) 0xa0)) c)
      ≡ put_bytes ((0xa0 + length text) ∷ text) c
short_form text c h = rw (short_prefix (length text) h) (put_bytes-put_byte _ text c)

medium_form :
    (text : List ℕ) (c : Command)
    → length text < 2048
    → put_bytes text (
        put_byte
          (u8 (length text))
          (put_byte (u8 (bit_or 0xd0 (bit_and (length text / 2 ^ 8) 0x07))) c))
      ≡ put_bytes ((0xd0 + length text / 256) ∷ length text % 256 ∷ text) c
medium_form text c h =
    rw (medium_prefix (length text) h)
      (put_bytes-put_byte _ text _ ∙ put_bytes-put_byte _ (length text % 256 ∷ text) c)

-- On a valid command, `addStringToken` writes the form of the text where it fits, leaves the command
-- as it is where it does not, and returns `false` either way. A text of 2048 bytes or more has no
-- form, and nothing is written.
pub add_string_token_lem :
    (text : List ℕ) (c : Command)
    → IsValid c
    → add_string_token text c ≡ (
      (if leb (cmd_pos c + length (string_encoding text)) max_buffer_length
          then put_bytes (string_encoding text) c
          else c),
      false,
    )
unfolding add_string_token string_encoding
add_string_token_lem text c v = elim (Bool-cases (length text == 0)) [
  | inl empty ↦
      rw empty (written_if 2 c _ (0xa1 ∷ 0x00 ∷ []) v refl (put_bytes-put_byte 0xa1 (0x00 ∷ []) c))
  | inr some_text ↦ rw some_text (elim (Bool-cases (ltb (length text) 16)) [
    | inl short ↦ rw short (
        written_if (1 + length text) c _ ((0xa0 + length text) ∷ text) v (omega arith)
          (short_form text c (ltb→lt _ _ short)))
    | inr long ↦ rw long (elim (Bool-cases (ltb (length text) 2048)) [
      | inl medium ↦ rw medium (
          written_if (2 + length text) c _ ((0xd0 + length text / 256) ∷ length text % 256 ∷ text) v
            (omega arith) (medium_form text c (ltb→lt _ _ medium)))
      | inr large ↦
          rw large
            (ap (λ t. (t, false)) (nothing_written (leb (cmd_pos c + 0) max_buffer_length) c))
    ])
  ])
]

pub put_number_lem : (k v : ℕ) (c : Command) → put_number k v c ≡ put_bytes (big_endian k v) c
unfolding put_number big_endian
put_number_lem zero v c = ap (λ t. record c { payload = t }) (sym (append-nil c.payload))
put_number_lem (suc k) v c = put_number_lem k v _ ∙ put_bytes-put_byte _ (big_endian k v) c

pub put_byte-IsValid :
    (x : ℕ) (c : Command)
    → IsValid c
    → cmd_pos c + 1 ≤ max_buffer_length
    → x < 256
    → IsValid (put_byte x c)
put_byte-IsValid x c v room h = record {
  fits = omega (arith, length-append c.payload (x ∷ []));
  com_id_size = v.com_id_size;
  bytes = All-append IsByte c.payload (x ∷ []) v.bytes (h, tt);
}

pub put_bytes-IsValid :
    (xs : List ℕ) (c : Command)
    → IsValid c
    → cmd_pos c + length xs ≤ max_buffer_length
    → All IsByte xs
    → IsValid (put_bytes xs c)
put_bytes-IsValid xs c v room h = record {
  fits = omega (arith, length-append c.payload xs);
  com_id_size = v.com_id_size;
  bytes = All-append IsByte c.payload xs v.bytes h;
}

-- A wide number whose form fits is written whole.
put_wide_fits :
    (prefix k v : ℕ) (c : Command)
    → prefix < 256
    → IsValid c
    → cmd_pos c + suc k ≤ max_buffer_length
    → put_wide prefix k v c ≡ (put_bytes (prefix ∷ big_endian k v) c, true)
unfolding put_wide
put_wide_fits prefix k v c byte valid h =
    rw
      (check_cmd_buf_write_lem (put_byte prefix c) k
        (put_byte-IsValid prefix c valid (omega arith) byte))
      (rw enough (ap (λ t. (t, true)) whole))
  where
    enough : leb (cmd_pos (put_byte prefix c) + k) max_buffer_length ≡ true
    enough = ground (arith, length-append c.payload (prefix ∷ []))

    whole : put_number k v (put_byte prefix c) ≡ put_bytes (prefix ∷ big_endian k v) c
    whole = put_number_lem k v _ ∙ put_bytes-put_byte prefix (big_endian k v) c

-- On a valid command, a number whose form fits is written whole, and the result is `true`.
pub add_number_token_lem :
    (v : ℕ) (c : Command)
    → IsValid c
    → cmd_pos c + length (number_encoding v) ≤ max_buffer_length
    → add_number_token v c ≡ (put_bytes (number_encoding v) c, true)
unfolding add_number_token number_encoding
add_number_token_lem v c valid room = ground (
  arith,
  check_cmd_buf_write_lem c 1 valid,
  bit_and_ones 6 v,
  length-big_endian 1 v,
  length-big_endian 2 v,
  length-big_endian 4 v,
  length-big_endian 8 v,
  put_wide_fits 0x81 1 v c,
  put_wide_fits 0x82 2 v c,
  put_wide_fits 0x84 4 v c,
  put_wide_fits 0x88 8 v c,
)

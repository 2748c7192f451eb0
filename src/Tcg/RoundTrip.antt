-- ===== src/Tcg/RoundTrip.antt =====
-- From the command to the response: what the command writes is cut by `commit` into the tokens that
-- were written.
use jcu_dparm.Common.{ℕ, ◌+◌, ◌-◌, ◌*◌, ◌/◌, ◌%◌, ◌^◌, ◌≤◌, ◌<◌, ◌≡◌, sym, ap, ◌∙◌, arith}
use jcu_dparm.Common.{List, [], ◌∷◌, ◌++◌, false, inr}
use jcu_dparm.Common.{map, length, length-append, drop, IsByte, All}
use jcu_dparm.Common.{
  done, ◌⊎◌, ◌>>=◌, swap32-lt, u32, replicate, of_le32, append_assoc, append-nil, swap32,
  swap32-swap32,
}
use jcu_dparm.Common.Bits.{bit_or_high, bit_and_ones, top_bit, second_bit, third_bit, fourth_bit}
use mathlib.Core.Path.{subst}
use jcu_dparm.Err.{success}
use jcu_dparm.Tcg.Types.{max_buffer_length, min_buffer_length, header_size}
use jcu_dparm.Tcg.Response.{token_length, commit_from, commit, host_u32}
use jcu_dparm.Tcg.Response.Framing.{IsFramed, flat, without_empty, commit_from-flat}
use jcu_dparm.Tcg.Command.{
  Command, IsValid, cmd_pos, put_bytes, add_byte_token, add_token, add_string_token,
  add_number_token,
}
use jcu_dparm.Tcg.Command.Encoding.{number_encoding, string_encoding, big_endian, length-big_endian}
use jcu_dparm.Tcg.Command.Encoding.{add_number_token_lem, add_string_token_lem}
use jcu_dparm.Tcg.Command.Encoding.{check_cmd_buf_write_lem}
use jcu_dparm.Tcg.Command.{complete, empty_command, get_cmd_buf, header_bytes}
use jcu_dparm.Tcg.Command.Layout.{finished, finish-eq-finished, padding}
use jcu_dparm.Tcg.Command.Invariant.{Step, Step-IsValid}

-- A single byte that is a tiny atom or a control token announces the length 1.
pub single-IsFramed : (x : ℕ) → x < 256 → (x < 0x80) ⊎ (0xf0 ≤ x) → IsFramed (x ∷ [])
unfolding token_length
single-IsFramed x h k = ground (arith, top_bit x, second_bit x, third_bit x, fourth_bit x)

short-IsFramed :
    (p : ℕ) (xs : List ℕ) → 0x80 ≤ p → p < 0xc0 → p % 16 ≡ length xs → IsFramed (p ∷ xs)
unfolding token_length
short-IsFramed p xs lo hi e = ground (arith, top_bit p, second_bit p, bit_and_ones 4 p)

medium-IsFramed :
    (p q : ℕ) (xs : List ℕ)
    → 0xc0 ≤ p
    → p < 0xe0
    → q < 256
    → p % 8 * 256 + q ≡ length xs
    → IsFramed (p ∷ q ∷ xs)
unfolding token_length
medium-IsFramed p q xs lo hi hq e =
    ground
      (arith, top_bit p, second_bit p, third_bit p, bit_and_ones 3 p, bit_or_high 8 (p % 8) q hq)

-- The form of every `uint64_t` announces its own length.
pub number_encoding-IsFramed : (v : ℕ) → v < 2 ^ 64 → IsFramed (number_encoding v)
unfolding number_encoding
number_encoding-IsFramed v h = ground (
  arith,
  single-IsFramed v,
  short-IsFramed 0x81 (big_endian 1 v),
  short-IsFramed 0x82 (big_endian 2 v),
  short-IsFramed 0x84 (big_endian 4 v),
  short-IsFramed 0x88 (big_endian 8 v),
  length-big_endian 1 v,
  length-big_endian 2 v,
  length-big_endian 4 v,
  length-big_endian 8 v,
)

pub string_encoding-IsFramed :
    (text : List ℕ) → length text < 2048 → IsFramed (string_encoding text)
unfolding string_encoding
string_encoding-IsFramed text h = ground (
  arith,
  short-IsFramed 0xa1 (0x00 ∷ []),
  short-IsFramed (0xa0 + length text) text,
  medium-IsFramed (0xd0 + length text / 256) (length text % 256) text,
)

-- What a client writes between `reset` and `complete`: a `uint64_t`, a text, or a control token.
pub data Item : Type 0 where
  number : ℕ → Item
  text : List ℕ → Item
  control : ℕ → Item

abbrev pub IsItem : Item → Type 0
IsItem (number v) = v < 2 ^ 64
IsItem (text t) = (length t < 2048) × All IsByte t
IsItem (control x) = (0xf0 ≤ x) × (x < 256)

unfoldable pub form : Item → List ℕ
form (number v) = number_encoding v
form (text t) = string_encoding t
form (control x) = x ∷ []

unfoldable pub write : Item → Command → Command
write (number v) c = (add_number_token v c).0
write (text t) c = (add_string_token t c).0
write (control x) c = (add_token x c).0

unfoldable pub write_all : List Item → Command → Command
write_all [] c = c
write_all (x ∷ xs) c = write_all xs (write x c)

form-IsFramed : (x : Item) → IsItem x → IsFramed (form x)
unfolding form
form-IsFramed (number v) h = number_encoding-IsFramed v h
form-IsFramed (text t) h = string_encoding-IsFramed t h.0
form-IsFramed (control x) h = single-IsFramed x h.1 (inr h.0)

forms-IsFramed : (xs : List Item) → All IsItem xs → All IsFramed (map form xs)
forms-IsFramed [] h = tt
forms-IsFramed (x ∷ xs) h = (form-IsFramed x h.0, forms-IsFramed xs h.1)

write_lem :
    (x : Item) (c : Command)
    → IsItem x
    → IsValid c
    → cmd_pos c + length (form x) ≤ max_buffer_length
    → write x c ≡ put_bytes (form x) c
unfolding write form
write_lem (number v) c h valid room = ap (λ p. p.0) (add_number_token_lem v c valid room)
write_lem (text t) c h valid room = ap (λ p. p.0) (add_string_token_lem t c valid) ∙ (ground arith)
write_lem (control x) c h valid room =
    unfold add_byte_token in ground (arith, check_cmd_buf_write_lem c 1 valid)

write-IsValid : (x : Item) (c : Command) → IsItem x → IsValid c → IsValid (write x c)
unfolding write
write-IsValid (number v) c h valid = Step-IsValid (Step.add_number_token v) valid
write-IsValid (text t) c h valid = Step-IsValid (Step.add_string_token t h.1) valid
write-IsValid (control x) c h valid = Step-IsValid (Step.add_byte_token x) valid

write_all-IsValid :
    (xs : List Item) (c : Command) → All IsItem xs → IsValid c → IsValid (write_all xs c)
unfolding write_all
write_all-IsValid [] c h valid = valid
write_all-IsValid (x ∷ xs) c h valid =
    write_all-IsValid xs (write x c) h.1 (write-IsValid x c h.0 valid)

-- Items that fit are written one behind the other.
pub write_all_lem :
    (xs : List Item) (c : Command)
    → All IsItem xs
    → IsValid c
    → cmd_pos c + length (flat (map form xs)) ≤ max_buffer_length
    → write_all xs c ≡ put_bytes (flat (map form xs)) c
unfolding write_all flat
write_all_lem [] c h valid room = ap (λ t. record c { payload = t }) (sym (append-nil c.payload))
write_all_lem (x ∷ xs) c h valid room =
    let fits : cmd_pos c + length (form x) ≤ max_buffer_length =
      omega (arith, length-append (form x) (flat (map form xs))) in
    let one = write_lem x c h.0 valid fits in
    write_all_lem xs (write x c) h.1 (write-IsValid x c h.0 valid) (
      rw one (
        omega
          (arith, length-append (form x) (flat (map form xs)), length-append c.payload (form x))))
    ∙ rw one
        (ap (λ t. record c { payload = t }) (append_assoc c.payload (form x) (flat (map form xs))))

-- The host reads back the four bytes of a field.
field_bytes :
    (x : ℕ)
    → x < 2 ^ 32
    → of_le32 (x % 256) (x / 256 % 256) (x / 2 ^ 16 % 256) (x / 2 ^ 24 % 256) ≡ x
field_bytes x h = omega arith

subpkt_field :
    (ys : List ℕ) (a b d e f : ℕ)
    → f < 2 ^ 32
    → host_u32
        (get_cmd_buf (record {
          extended_com_id = 0 ∷ 0 ∷ 0 ∷ 0 ∷ [];
          cp_length = a;
          tsn = b;
          hsn = d;
          pkt_length = e;
          subpkt_length = f;
          payload = ys;
        }))
        52
      ≡ done f
unfolding host_u32 get_cmd_buf header_bytes
subpkt_field ys a b d e f h = ap done (field_bytes f h)

-- The buffer of a finished command whose payload is a list of framed tokens, taken as a response.
commit-finished :
    (ts : List (List ℕ)) (old : List (List ℕ))
    → All IsFramed ts
    → header_size + length (flat ts) ≤ min_buffer_length
    → (let m = get_cmd_buf (finished (put_bytes (flat ts) empty_command)) in
        commit (record { mem = m; tokens = old })
        ≡ done (success, record { mem = m; tokens = without_empty ts }))
unfolding commit
commit-finished ts old h room =
    ap (λ o. o >>= λ raw. commit_from (record { mem = m; tokens = old }) (swap32 raw)) field
    ∙ ap (commit_from (record { mem = m; tokens = old })) size
    ∙ commit_from-flat (record { mem = m; tokens = old }) ts rest h room after_header
  where
    m : List ℕ
    m = get_cmd_buf (finished (put_bytes (flat ts) empty_command))

    rest : List ℕ
    rest =
        padding (header_size + length (flat ts))
        ++ replicate
            (max_buffer_length
              - (header_size + length (flat ts ++ padding (header_size + length (flat ts)))))
            0

    field : host_u32 m 52 ≡ done (swap32 (u32 (header_size + length (flat ts) - header_size)))
    field = unfold finished in subpkt_field _ _ _ _ _ _ (swap32-lt _)

    size : swap32 (swap32 (u32 (header_size + length (flat ts) - header_size))) ≡ length (flat ts)
    size = swap32-swap32 _ (omega arith) ∙ omega arith

    after_header : drop header_size m ≡ flat ts ++ rest
    after_header = unfold get_cmd_buf header_bytes finished in append_assoc (flat ts) _ _

-- The loop of writing and reading: items written to a fresh command, which is completed without the
-- end-of-data list and whose buffer is then taken as a response, come back as the list of their
-- forms, in order, without the empty atoms. The forms must fit into the 2048 bytes of a response.
pub commit-write_all :
    (xs : List Item) (old : List (List ℕ))
    → All IsItem xs
    → header_size + length (flat (map form xs)) ≤ min_buffer_length
    → (let m = get_cmd_buf (complete false (write_all xs empty_command)).0 in
        commit (record { mem = m; tokens = old })
        ≡ done (success, record { mem = m; tokens = without_empty (map form xs) }))
unfolding complete
commit-write_all xs old h room = rw written (
    rw (finish-eq-finished (put_bytes (flat (map form xs)) empty_command) valid)
      (commit-finished (map form xs) old (forms-IsFramed xs h) room))
  where
    new : IsValid empty_command
    new = omega arith

    written : write_all xs empty_command ≡ put_bytes (flat (map form xs)) empty_command
    written = write_all_lem xs empty_command h new (omega arith)

    valid : IsValid (put_bytes (flat (map form xs)) empty_command)
    valid = subst IsValid written (write_all-IsValid xs empty_command h new)

-- ===== src/Tcg/Response.antt =====
-- src/tcg/tcg_response_impl.cc: the response buffer and its split into tokens. `mem` are the bytes
-- of `resp_buf_` from `resp_ptr_` on: the 2048 bytes that are announced, and what the alignment
-- leaves behind them. A read past `mem` is a `fault`.
pub mod Framing
pub mod Tiling
use jcu_dparm.Common.{
  ℕ, zero, suc, ◌+◌, ◌-◌, ◌*◌, ◌%◌, ◌^◌, ◌≤◌, List, [], ◌∷◌, ◌++◌, bit_and, bit_or,
}
use jcu_dparm.Common.{
  Bool, true, false, if◌then◌else◌, ltb, leb, ◌==◌, length, drop, take, replicate,
}
use jcu_dparm.Common.{All, IsByte, Option, none, some, get_elem?, swap32, of_le32, ◌<<<◌}
use jcu_dparm.Common.{Outcome, done, fault, stuck, ◌>>=◌, read, read_bytes}
use jcu_dparm.Err.{DparmResult, failed, success, illegal_data}
use jcu_dparm.Tcg.Types.{min_buffer_length, io_buffer_alignment, header_size, empty_atom}
use jcu_dparm.Tcg.Token.{is_clear}

pub record Response : Type 0 where
  pub mem : List ℕ
  pub tokens : List (List ℕ)

-- The pointer that both buffers round down to a multiple of 1024.
unfoldable pub align_pointer : ℕ → ℕ
align_pointer buf = bit_and (buf + io_buffer_alignment) (2 ^ 64 - io_buffer_alignment)

-- `memset(resp_ptr_, 0, MIN_BUFFER_LENGTH)`; the tokens stay.
unfoldable pub reset : Response → Response
reset r = record r { mem = replicate min_buffer_length 0 ++ drop min_buffer_length r.mem }

-- A big-endian field of the header at byte `i`: `SWAP32` of what the host reads there.
unfoldable pub host_u32 : List ℕ → ℕ → Outcome ℕ
host_u32 m i = do
  a ← read m i
  b ← read m (i + 1)
  c ← read m (i + 2)
  d ← read m (i + 3)
  done (of_le32 a b c d)

-- The length of the token at `cur`, by its first bytes.
unfoldable pub token_length : List ℕ → Outcome ℕ
token_length m = do
  t ← read m 0
  if is_clear t 0x80
      then done 1
      else if is_clear t 0x40
      then done (bit_and t 0x0f + 1)
      else if is_clear t 0x20
      then (read m 1 >>= λ x. done (bit_or (bit_and t 0x07 <<< 8) x + 2))
      else if is_clear t 0x10
      then (read m 1 >>= λ x.
          read m 2 >>= λ y. read m 3 >>= λ z. done (bit_or (bit_or (x <<< 16) (y <<< 8)) z + 4))
      else done 1

-- `temp_token_buffer != EMPTYATOM_TOKEN`
unfoldable pub is_empty_atom : List ℕ → Bool
is_empty_atom [] = false
is_empty_atom (x ∷ []) = x == empty_atom
is_empty_atom (x ∷ (y ∷ r)) = false

abbrev pub keep : List ℕ → List (List ℕ) → List (List ℕ)
keep token out = if is_empty_atom token then out else out ++ (token ∷ [])

-- `while (cur < end)`, with fuel: the first argument is `end - cur`, 0 once `cur` has passed `end`; `m` are the bytes from
-- `cur` on. Each round takes a byte at least, so that many rounds are enough.
unfoldable pub commit_loop : ℕ → ℕ → List ℕ → List (List ℕ) → Outcome (List (List ℕ))
commit_loop zero fuel m out = done out
commit_loop (suc left) zero m out = stuck
commit_loop (suc left) (suc fuel) m out = do
  n ← token_length m
  token ← read_bytes n m
  commit_loop (suc left - n) fuel (drop n m) (keep token out)

-- `commit` once it has read the length of the subpacket.
unfoldable pub commit_from : Response → ℕ → Outcome (DparmResult × Response)
commit_from r subpkt_length =
    if ltb min_buffer_length (header_size + subpkt_length)
    then done (failed illegal_data, r)
    else (commit_loop subpkt_length subpkt_length (drop header_size r.mem) [] >>= λ out.
        done (success, record r { tokens = out }))

unfoldable pub commit : Response → Outcome (DparmResult × Response)
commit r = do raw ← host_u32 r.mem 52; commit_from r (swap32 raw)

abbrev pub get_token_count : Response → ℕ
get_token_count r = length r.tokens

-- `nullptr` is `none`.
abbrev pub get_token : Response → ℕ → Option (List ℕ)
get_token r i = get_elem? r.tokens i

pub record IsValid (r : Response) : Type 0 where
  pub announced : min_buffer_length ≤ length r.mem
  pub bytes : All IsByte r.mem

-- ===== src/Tcg/Response/Tiling.antt =====
-- What a successful `commit` says about the buffer, when it reads outside, and where the aligned
-- buffer lies.
use jcu_dparm.Common.{ℕ, zero, suc, ◌+◌, ◌-◌, ◌%◌, ◌^◌, ◌≤◌, ◌<◌, ◌≡◌, refl, sym, ap, ◌∙◌, arith}
use jcu_dparm.Common.{List, [], ◌∷◌, ◌++◌, false, Bool-cases, inl, inr, ltb, lt→ltb}
use jcu_dparm.Common.{length, length-append, drop, All}
use jcu_dparm.Common.{append-nil, append_assoc, swap32}
use jcu_dparm.Common.{Outcome, done, fault, stuck, ◌>>=◌, read_bytes, done-injective, >>=-eq-done}
use mathlib.Core.Path.{subst}
use jcu_dparm.Common.Bits.{bit_and_field}
use jcu_dparm.Err.{DparmResult, success, failed, illegal_data}
use jcu_dparm.Tcg.Types.{min_buffer_length, header_size, io_buffer_alignment}
use jcu_dparm.Tcg.Response.{
  Response, token_length, commit_loop, commit, commit_from, host_u32, keep, align_pointer,
}
use jcu_dparm.Tcg.Response.Framing.{IsFramed, flat, without_empty, keep-append, token_length-pos}

-- A read of `n` bytes splits the memory.
read_bytes-split :
    (n : ℕ) (m token : List ℕ)
    → read_bytes n m ≡ done token
    → (m ≡ token ++ drop n m) × (length token ≡ n)
read_bytes-split zero m token e = nothing token (done-injective e)
  where
    nothing : (token : List ℕ) → [] ≡ token → (m ≡ token ++ m) × (length token ≡ 0)
    nothing [] e = (refl, refl)
    nothing (x ∷ t) e = cc
read_bytes-split (suc n) [] token e = cc
read_bytes-split (suc n) (x ∷ m) token e = more (read_bytes n m) token refl e (read_bytes-split n m)
  where
    more :
        (r : Outcome (List ℕ)) (token : List ℕ)
        → read_bytes n m ≡ r
        → (r >>= λ t. done (x ∷ t)) ≡ done token
        → ((t : List ℕ) → read_bytes n m ≡ done t → (m ≡ t ++ drop n m) × (length t ≡ n))
        → (x ∷ m ≡ token ++ drop n m) × (length token ≡ suc n)
    more (done t) token here e ih =
        let parts = ih t here in rw (← done-injective e) (ap (λ l. x ∷ l) parts.0, ap suc parts.1)
    more fault token here e ih = cc
    more stuck token here e ih = cc

-- The announced length does not depend on what lies behind the token itself.
token_length-front :
    (xs ys : List ℕ)
    → token_length (xs ++ ys) ≡ done (length xs)
    → token_length xs ≡ done (length xs)
unfolding token_length
token_length-front [] ys e = absurd (omega (arith, token_length-pos ys 0 e))
token_length-front (a ∷ []) [] e = e
token_length-front (a ∷ []) (y ∷ []) e = ground arith
token_length-front (a ∷ []) (y ∷ (z ∷ [])) e = ground arith
token_length-front (a ∷ []) (y ∷ (z ∷ (w ∷ ys))) e = ground arith
token_length-front (a ∷ (b ∷ [])) [] e = e
token_length-front (a ∷ (b ∷ [])) (y ∷ []) e = ground arith
token_length-front (a ∷ (b ∷ [])) (y ∷ (z ∷ ys)) e = ground arith
token_length-front (a ∷ (b ∷ (c ∷ []))) [] e = e
token_length-front (a ∷ (b ∷ (c ∷ []))) (y ∷ ys) e = ground arith
token_length-front (a ∷ (b ∷ (c ∷ (d ∷ xs)))) ys e = e

-- The tokens that a run of the loop cut off, the kept ones among them behind `out`.
pub record IsTiling (left : ℕ) (m : List ℕ) (out result : List (List ℕ)) : Type 0 where
  pub cut : List (List ℕ)
  pub rest : List ℕ
  pub framed : All IsFramed cut
  pub tiles : m ≡ flat cut ++ rest
  pub covers : left ≤ length (flat cut)
  pub kept : result ≡ out ++ without_empty cut

IsTiling-cons :
    {left n : ℕ} {m token : List ℕ} {out result : List (List ℕ)}
    → token_length m ≡ done n
    → read_bytes n m ≡ done token
    → IsTiling (left - n) (drop n m) (keep token out) result
    → IsTiling left m out result
unfolding flat
IsTiling-cons {left} {n} {m} {token} {out} {result} len bytes t =
    let (split, size) = read_bytes-split n m token bytes in
    record {
      cut = token ∷ t.cut;
      rest = t.rest;
      framed = (
        token_length-front token (drop n m)
            (subst (λ x. token_length x ≡ done (length token)) split (rw size len)),
        t.framed,
      );
      tiles = split ∙ ap (λ l. token ++ l) t.tiles ∙ sym (append_assoc token (flat t.cut) t.rest);
      covers = omega (arith, t.covers, size, length-append token (flat t.cut));
      kept = t.kept ∙ keep-append token t.cut out;
    }

commit_loop-IsTiling :
    (left fuel : ℕ) (m : List ℕ) (out result : List (List ℕ))
    → commit_loop left fuel m out ≡ done result
    → IsTiling left m out result
unfolding commit_loop flat
commit_loop-IsTiling zero fuel m out result e = record {
  cut = [];
  rest = m;
  framed = tt;
  tiles = refl;
  covers = omega arith;
  kept = unfold without_empty in sym (done-injective e) ∙ sym (append-nil out);
}
commit_loop-IsTiling (suc left) zero m out result e = cc
commit_loop-IsTiling (suc left) (suc fuel) m out result e =
    let (n, len, e1) = >>=-eq-done (token_length m) _ e in
    let (token, bytes, e2) = >>=-eq-done (read_bytes n m) _ e1 in
    IsTiling-cons len bytes
      (commit_loop-IsTiling (suc left - n) fuel (drop n m) (keep token out) result e2)

-- A successful cut of a subpacket of `n` bytes: the bytes behind the header are framed tokens one
-- behind the other, which reach to the end of the subpacket at least, and the result holds exactly
-- those that are no empty atoms, in order. Nothing else of the response changes.
pub commit_from-IsTiling :
    (r : Response) (n : ℕ) (r' : Response)
    → commit_from r n ≡ done (success, r')
    → IsTiling n (drop header_size r.mem) [] r'.tokens × (r'.mem ≡ r.mem)
unfolding commit_from
commit_from-IsTiling r n r' e = elim (Bool-cases (ltb min_buffer_length (header_size + n))) [
  | inl long ↦ refused (rw long at e)
  | inr fits ↦
      let (out, looped, e2) =
        >>=-eq-done (commit_loop n n (drop header_size r.mem) []) _ (rw fits at e) in
      let same : record r { tokens = out } ≡ r' = ap (λ p. p.1) (done-injective e2) in
      rw (← same) (commit_loop-IsTiling n n (drop header_size r.mem) [] out looped, refl)
]
  where
    refused :
        ◌≡◌ {A = Outcome (DparmResult × Response)}
          (done (failed illegal_data, r))
          (done (success, r'))
        → IsTiling n (drop header_size r.mem) [] r'.tokens × (r'.mem ≡ r.mem)
    refused e = cc

-- A subpacket that is longer than the buffer is refused, and the tokens of the last response stay.
pub commit_from_long :
    (r : Response) (n : ℕ)
    → min_buffer_length < header_size + n
    → commit_from r n ≡ done (failed illegal_data, r)
unfolding commit_from
commit_from_long r n h = rw (lt→ltb _ _ h)

read_bytes-short : (n : ℕ) (m : List ℕ) → length m < n → read_bytes n m ≡ fault
read_bytes-short zero m h = absurd (omega arith)
read_bytes-short (suc n) [] h = refl
read_bytes-short (suc n) (x ∷ m) h = rw (read_bytes-short n m (omega arith))

-- The first token is read outside the buffer where the bytes in memory are fewer than it announces:
-- the length of a token is not held against the end of the subpacket or of the buffer.
pub commit_from_overread :
    (r : Response) (n k : ℕ)
    → 0 < n
    → header_size + n ≤ min_buffer_length
    → token_length (drop header_size r.mem) ≡ done k
    → length (drop header_size r.mem) < k
    → commit_from r n ≡ fault
unfolding commit_from
commit_from_overread r zero k pos fits len short = absurd (omega arith)
commit_from_overread r (suc n) k pos fits len short = rw (ltb_long, commit_loop-round_short)
  where
    ltb_long : ltb min_buffer_length (header_size + suc n) ≡ false
    ltb_long = ground arith

    commit_loop-round_short : commit_loop (suc n) (suc n) (drop header_size r.mem) [] ≡ fault
    commit_loop-round_short = unfold commit_loop in rw (len, read_bytes-short k _ short)

-- The buffer's pointer is a multiple of 1024, and its bytes, 61440 of a command or 2048 of a
-- response, lie within the array of 1024 more bytes that starts at `buf`.
pub align_pointer_bounds :
    (buf : ℕ)
    → buf + io_buffer_alignment < 2 ^ 64
    → (align_pointer buf % io_buffer_alignment ≡ 0)
      × (buf < align_pointer buf)
      × (align_pointer buf ≤ buf + io_buffer_alignment)
unfolding align_pointer
align_pointer_bounds buf h = omega (arith, bit_and_field 54 10 (buf + 1024))

-- A successful `commit`: with the subpacket's length read from the header, the bytes behind the
-- header are framed tokens one behind the other, which reach to the end of the subpacket at least,
-- and the response's tokens are exactly those that are no empty atoms, in order. The buffer is not
-- changed.
pub commit-IsTiling :
    (r r' : Response)
    → commit r ≡ done (success, r')
    → (raw : ℕ) × (host_u32 r.mem 52 ≡ done raw)
      × IsTiling (swap32 raw) (drop header_size r.mem) [] r'.tokens
      × (r'.mem ≡ r.mem)
unfolding commit
commit-IsTiling r r' e =
    let (raw, read, cut) = >>=-eq-done (host_u32 r.mem 52) _ e in
    let (tiling, same) = commit_from-IsTiling r (swap32 raw) r' cut in (raw, read, tiling, same)

-- ===== src/Tcg/Response/Framing.antt =====
-- How `commit` cuts a payload into tokens: it ends on every input, what it returns tiles the
-- payload, and it gives back a list of framed tokens without the empty atoms.
use jcu_dparm.Common.{bind-ne-stuck}
use jcu_dparm.Common.{ℕ, zero, suc, ◌+◌, ◌-◌, ◌≤◌, ◌≡◌, ◌≢◌, refl, ap, ◌∙◌, arith}
use jcu_dparm.Common.{List, [], ◌∷◌, ◌++◌, false, Bool-cases, inl, inr, ltb}
use jcu_dparm.Common.{if◌then◌else◌, length, length-append, drop, drop-append, All}
use jcu_dparm.Common.{append-nil, append_assoc, swap32}
use jcu_dparm.Common.{Outcome, done, fault, stuck, ◌>>=◌, read, read_bytes, read_bytes-append}
use jcu_dparm.Err.{success}
use jcu_dparm.Tcg.Types.{min_buffer_length, header_size}
use jcu_dparm.Tcg.Response.{
  Response, token_length, commit_loop, commit, commit_from, keep, is_empty_atom, host_u32,
}

-- A token whose first bytes announce its own length.
abbrev pub IsFramed : List ℕ → Type 0
IsFramed token = token_length token ≡ done (length token)

-- The announced length depends on the first bytes alone.
pub token_length-append :
    (xs ys : List ℕ) (n : ℕ) → token_length xs ≡ done n → token_length (xs ++ ys) ≡ done n
unfolding token_length
token_length-append [] ys n e = cc
token_length-append (a ∷ []) ys n e = ground arith
token_length-append (a ∷ (b ∷ [])) ys n e = ground arith
token_length-append (a ∷ (b ∷ (c ∷ []))) ys n e = ground arith
token_length-append (a ∷ (b ∷ (c ∷ (d ∷ xs)))) ys n e = ground arith

-- No token is empty, and none is longer than a long atom with its four bytes of prefix.
pub token_length-pos : (m : List ℕ) (n : ℕ) → token_length m ≡ done n → 1 ≤ n
unfolding token_length
token_length-pos [] n e = cc
token_length-pos (a ∷ []) n e = ground arith
token_length-pos (a ∷ (b ∷ [])) n e = ground arith
token_length-pos (a ∷ (b ∷ (c ∷ []))) n e = ground arith
token_length-pos (a ∷ (b ∷ (c ∷ (d ∷ m)))) n e = ground arith

token_length-ne-stuck : (m : List ℕ) → token_length m ≢ stuck
unfolding token_length
token_length-ne-stuck [] e = cc
token_length-ne-stuck (a ∷ []) e = ground arith
token_length-ne-stuck (a ∷ (b ∷ [])) e = ground arith
token_length-ne-stuck (a ∷ (b ∷ (c ∷ []))) e = ground arith
token_length-ne-stuck (a ∷ (b ∷ (c ∷ (d ∷ m)))) e = ground arith

pub read_bytes-ne-stuck : (n : ℕ) (m : List ℕ) → read_bytes n m ≢ stuck
read_bytes-ne-stuck zero m e = cc
read_bytes-ne-stuck (suc n) [] e = cc
read_bytes-ne-stuck (suc n) (x ∷ m) e = ground (arith, read_bytes-ne-stuck n m)

-- One round of the loop, by what it reads.
commit_loop-round :
    (left fuel : ℕ) (m : List ℕ) (out : List (List ℕ)) (n : ℕ) (token : List ℕ)
    → token_length m ≡ done n
    → read_bytes n m ≡ done token
    → commit_loop (suc left) (suc fuel) m out
      ≡ commit_loop (suc left - n) fuel (drop n m) (keep token out)
unfolding commit_loop
commit_loop-round left fuel m out n token e r = rw (e, r)

commit_loop-ne-stuck :
    (left fuel : ℕ) (m : List ℕ) (out : List (List ℕ))
    → left ≤ fuel
    → commit_loop left fuel m out ≢ stuck
unfolding commit_loop
commit_loop-ne-stuck zero fuel m out h = λ e. cc
commit_loop-ne-stuck (suc left) zero m out h = absurd (omega arith)
commit_loop-ne-stuck (suc left) (suc fuel) m out h =
    after_length (token_length m) refl (λ n token pos.
      commit_loop-ne-stuck (suc left - n) fuel (drop n m) (keep token out) (omega arith))
  where
    Later : Type 0
    Later =
        (n : ℕ) (token : List ℕ)
        → 1 ≤ n
        → commit_loop (suc left - n) fuel (drop n m) (keep token out) ≢ stuck

    after_token :
        (n : ℕ)
        → 1 ≤ n
        → Later
        → (r : Outcome (List ℕ)) → r ≢ stuck
        → (r >>= λ token. commit_loop (suc left - n) fuel (drop n m) (keep token out)) ≢ stuck
    after_token n pos later (done token) ne = later n token pos
    after_token n pos later fault ne = λ e. cc
    after_token n pos later stuck ne = absurd (ne refl)

    after_length :
        (r : Outcome ℕ)
        → token_length m ≡ r
        → Later
        → (r >>= λ n.
            read_bytes n m >>= λ token. commit_loop (suc left - n) fuel (drop n m) (keep token out))
          ≢ stuck
    after_length (done n) e later =
        after_token n (token_length-pos m n e) later (read_bytes n m) (read_bytes-ne-stuck n m)
    after_length fault e later = λ e. cc
    after_length stuck e later = absurd (token_length-ne-stuck m e)

pub read-ne-stuck : (m : List ℕ) (i : ℕ) → read m i ≢ stuck
read-ne-stuck [] i e = cc
read-ne-stuck (x ∷ m) zero e = cc
read-ne-stuck (x ∷ m) (suc i) e = read-ne-stuck m i e

pub host_u32-ne-stuck : (m : List ℕ) (i : ℕ) → host_u32 m i ≢ stuck
unfolding host_u32
host_u32-ne-stuck m i = ground (
  arith,
  read-ne-stuck m i,
  read-ne-stuck m (i + 1),
  read-ne-stuck m (i + 2),
  read-ne-stuck m (i + 3),
)

commit_from-ne-stuck : (r : Response) (n : ℕ) → commit_from r n ≢ stuck
unfolding commit_from
commit_from-ne-stuck r n = elim (Bool-cases (ltb min_buffer_length (header_size + n))) [
  | inl long ↦ rw long (λ e. cc)
  | inr fits ↦ rw fits (
      bind-ne-stuck (commit_loop n n (drop header_size r.mem) []) _
        (commit_loop-ne-stuck n n (drop header_size r.mem) [] (omega arith)) (λ out e. cc))
]

-- `commit` ends on every response, whatever the device sent.
pub commit-ne-stuck : (r : Response) → commit r ≢ stuck
unfolding commit
commit-ne-stuck r =
    bind-ne-stuck (host_u32 r.mem 52) _ (host_u32-ne-stuck r.mem 52)
      (λ raw. commit_from-ne-stuck r (swap32 raw))

-- The tokens of a list, one behind the other, and those that `commit` keeps.
unfoldable pub flat : List (List ℕ) → List ℕ
flat [] = []
flat (t ∷ ts) = t ++ flat ts

unfoldable pub without_empty : List (List ℕ) → List (List ℕ)
without_empty [] = []
without_empty (t ∷ ts) = if is_empty_atom t then without_empty ts else t ∷ without_empty ts

pub keep-append :
    (t : List ℕ) (ts out : List (List ℕ))
    → keep t out ++ without_empty ts ≡ out ++ without_empty (t ∷ ts)
unfolding without_empty
keep-append t ts out = ground (arith, append_assoc out (t ∷ []) (without_empty ts))

read_bytes_front : (t ys : List ℕ) → read_bytes (length t) (t ++ ys) ≡ done t
read_bytes_front t ys = read_bytes-append t ys (length t) refl

commit_loop-flat :
    (ts : List (List ℕ)) (n fuel : ℕ) (rest : List ℕ) (out : List (List ℕ))
    → All IsFramed ts
    → n ≡ length (flat ts)
    → n ≤ fuel
    → commit_loop n fuel (flat ts ++ rest) out ≡ done (out ++ without_empty ts)
unfolding flat
commit_loop-flat [] zero fuel rest out h e enough =
    unfold commit_loop without_empty in rw append-nil
commit_loop-flat [] (suc n) fuel rest out h e enough = absurd (omega arith)
commit_loop-flat (t ∷ ts) zero fuel rest out h e enough =
    absurd (omega (arith, token_length-pos t _ h.0, length-append t (flat ts)))
commit_loop-flat (t ∷ ts) (suc n) zero rest out h e enough = absurd (omega arith)
commit_loop-flat (t ∷ ts) (suc n) (suc fuel) rest out h e enough =
    rw (append_assoc t (flat ts) rest) (
      commit_loop-round n fuel _ out (length t) t (token_length-append t _ _ h.0)
        (read_bytes_front t _)
      ∙ rw drop-append (
          commit_loop-flat ts (suc n - length t) fuel rest (keep t out) h.1
            (omega (arith, length-append t (flat ts))) (omega (arith, token_length-pos t _ h.0))
          ∙ ap done (keep-append t ts out)))

-- A response whose subpacket holds framed tokens, and nothing else, is cut into these tokens. The
-- empty atoms are left out.
pub commit_from-flat :
    (r : Response) (ts : List (List ℕ)) (rest : List ℕ)
    → All IsFramed ts
    → header_size + length (flat ts) ≤ min_buffer_length
    → drop header_size r.mem ≡ flat ts ++ rest
    → commit_from r (length (flat ts)) ≡ done (success, record r { tokens = without_empty ts })
unfolding commit_from
commit_from-flat r ts rest h fits e = rw (
  short,
  e,
  commit_loop-flat ts (length (flat ts)) (length (flat ts)) rest [] h refl (omega arith),
)
  where
    short : ltb min_buffer_length (header_size + length (flat ts)) ≡ false
    short = ground arith

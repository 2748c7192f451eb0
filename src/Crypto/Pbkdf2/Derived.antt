-- ===== src/Crypto/Pbkdf2/Derived.antt =====
-- `pbkdf2` against RFC 8018, section 5.2, over the HMAC of the factory's hash function.
use jcu_dparm.Common.{ℕ, zero, suc, ◌+◌, ◌-◌, ◌*◌, ◌≤◌, ◌≡◌, refl, sym, ap, ◌∙◌, arith}
use jcu_dparm.Common.{List, [], ◌∷◌, ◌++◌, bit_xor}
use jcu_dparm.Common.{length, take, replicate, length-append, length-replicate}
use jcu_dparm.Common.{take-append_short}
use jcu_dparm.Common.{done, append_assoc}
use jcu_dparm.Crypto.Sha1.{be32}
use jcu_dparm.Crypto.Hash.{HashFactory, IsHash}
use jcu_dparm.Crypto.Hash.Laws.{hmac}
use jcu_dparm.Crypto.Pbkdf2.{PbeKeySpec, bytes_xor}

-- XOR of two lists of one length.
abbrev pub xor_lists : List ℕ → List ℕ → List ℕ
xor_lists [] ys = []
xor_lists (x ∷ xs) [] = []
xor_lists (x ∷ xs) (y ∷ ys) = bit_xor x y ∷ xor_lists xs ys

pub length-xor_lists :
    (xs ys : List ℕ) → length xs ≡ length ys → length (xor_lists xs ys) ≡ length xs
length-xor_lists [] ys h = refl
length-xor_lists (x ∷ xs) [] h = absurd (omega arith)
length-xor_lists (x ∷ xs) (y ∷ ys) h = ap suc (length-xor_lists xs ys (omega arith))

pub bytes_xor_lem :
    (xs ys : List ℕ) (n : ℕ)
    → length xs ≡ n
    → length ys ≡ n
    → bytes_xor xs ys n ≡ done (xor_lists xs ys)
unfolding bytes_xor
bytes_xor_lem [] ys zero h g = refl
bytes_xor_lem (x ∷ xs) ys zero h g = absurd (omega arith)
bytes_xor_lem [] ys (suc n) h g = absurd (omega arith)
bytes_xor_lem (x ∷ xs) [] (suc n) h g = absurd (omega arith)
bytes_xor_lem (x ∷ xs) (y ∷ ys) (suc n) h g =
    rw (bytes_xor_lem xs ys n (omega arith) (omega arith)) refl

module _ {H : Type 0} (f : HashFactory H) (hash : List ℕ → List ℕ) (law : IsHash f hash)
    (key : List ℕ) (spec : PbeKeySpec) where
  -- `U_1 ^ … ^ U_n` on top of `sum`, where `U_1` is the MAC of `block`.
  unfoldable pub chain : ℕ → List ℕ → List ℕ → List ℕ
  chain zero block sum = sum
  chain (suc n) block sum = let u = hmac f hash law key block in chain n u (xor_lists sum u)

  -- The block `T_index`.
  unfoldable pub derived_block : ℕ → List ℕ
  unfolding chain
  derived_block index = chain spec.iteration (spec.salt ++ be32 index) (replicate f.digest_size 0)

  -- `n` blocks from `T_index` on.
  unfoldable pub derived : ℕ → ℕ → List ℕ
  unfolding derived_block
  derived zero index = []
  derived (suc n) index = derived_block index ++ derived n (index + 1)

  pub length-hmac : (m : List ℕ) → length (hmac f hash law key m) ≡ f.digest_size
  unfolding hmac
  length-hmac m = law.size _

  pub length-chain :
      (n : ℕ) (block sum : List ℕ)
      → length sum ≡ f.digest_size
      → length (chain n block sum) ≡ f.digest_size
  unfolding chain
  length-chain zero block sum h = h
  length-chain (suc n) block sum h =
      let u = hmac f hash law key block in
      length-chain n u (xor_lists sum u) (length-xor_lists sum u (h ∙ sym (length-hmac block)) ∙ h)

  pub length-derived_block : (index : ℕ) → length (derived_block index) ≡ f.digest_size
  unfolding derived_block
  length-derived_block index =
      length-chain spec.iteration (spec.salt ++ be32 index) (replicate f.digest_size 0)
        (length-replicate {A = ℕ} f.digest_size 0)

  pub length-derived : (n index : ℕ) → length (derived n index) ≡ n * f.digest_size
  unfolding derived
  length-derived zero index = omega arith
  length-derived (suc n) index = grind (
    arith,
    length-append (derived_block index) (derived n (index + 1)),
    length-derived_block index,
    length-derived n (index + 1),
  )

  pub derived-add :
      (a b index : ℕ) → derived (a + b) index ≡ derived a index ++ derived b (index + a)
  unfolding derived
  derived-add zero b index =
      let same : zero + b ≡ b = omega arith in
      let start : index ≡ index + zero = omega arith in
      ap (λ t. derived t index) same ∙ ap (derived b) start
  derived-add (suc a) b index =
      let up : suc a + b ≡ suc (a + b) = omega arith in
      let next : index + 1 + a ≡ index + suc a = omega arith in
      ap (λ t. derived t index) up
      ∙ ap (λ t. derived_block index ++ t)
          (derived-add a b (index + 1) ∙ ap (λ t. derived a (index + 1) ++ derived b t) next)
      ∙ sym (append_assoc (derived_block index) (derived a (index + 1)) (derived b (index + suc a)))

  -- More blocks than hold the bytes that are taken change nothing.
  pub more_blocks :
      (k a b : ℕ) → k ≤ a * f.digest_size → a ≤ b → take k (derived b 1) ≡ take k (derived a 1)
  more_blocks k a b h le =
      let split : b ≡ a + (b - a) = omega arith in
      ap (λ t. take k (derived t 1)) split
      ∙ ap (take k) (derived-add a (b - a) 1)
      ∙ take-append_short k (derived a 1) (derived (b - a) (1 + a))
          (omega (arith, length-derived a 1))

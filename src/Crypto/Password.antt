-- ===== src/Crypto/Password.antt =====
-- The key that `tcgHashPassword` of src/tcg/tcg_intl.cc derives: `pbkdf2` over SHA-1 with no salt,
-- since `key_spec.salt` is left empty.
use jcu_dparm.Common.{ℕ, ◌*◌, ◌^◌, ◌<◌, ◌≤◌, ◌≡◌, arith, List, [], length, take, length-take}
use jcu_dparm.Common.{Outcome, done}
use jcu_dparm.Crypto.Sha1.{sha1_factory}
use jcu_dparm.Crypto.Sha1.Padding.{sha1, sha1_factory-IsHash}
use jcu_dparm.Crypto.Pbkdf2.{PbeKeySpec, pbkdf2}
use jcu_dparm.Crypto.Pbkdf2.Derived.{derived, length-derived}
use jcu_dparm.Crypto.Pbkdf2.Equivalence.{pbkdf2_lem}

abbrev pub unsalted : ℕ → ℕ → PbeKeySpec
unsalted iteration key_length = record { iteration = iteration; key_length = key_length; salt = [] }

-- The call of `crypto::pbkdf2`.
unfoldable pub derive_key : ℕ → ℕ → List ℕ → Outcome (List ℕ)
unfolding pbkdf2
derive_key iteration key_length password =
    pbkdf2 sha1_factory (unsalted iteration key_length) password

-- The key of RFC 8018, as the function that the sessions take.
unfoldable pub password_key : ℕ → ℕ → List ℕ → List ℕ
unfolding derived
password_key iteration key_length password = take key_length (
    derived sha1_factory sha1 sha1_factory-IsHash password (unsalted iteration key_length)
      key_length 1)

-- For a password of at most one block of 64 bytes the code returns that key, of the length that
-- was asked for, where 20 times this length is less than 2^31.
pub derive_key-password_key :
    (iteration key_length : ℕ) (password : List ℕ)
    → length password ≤ 64
    → key_length * 20 < 2 ^ 31
    → (derive_key iteration key_length password ≡ done (password_key iteration key_length password))
      × (length (password_key iteration key_length password) ≡ key_length)
unfolding derive_key password_key sha1_factory
derive_key-password_key iteration key_length password short product = (
  pbkdf2_lem sha1_factory sha1 sha1_factory-IsHash password (unsalted iteration key_length) short
      (omega arith) (omega arith) key_length (omega arith) (omega arith) product (omega arith),
  omega (
    arith,
    length-take key_length (
        derived sha1_factory sha1 sha1_factory-IsHash password (unsalted iteration key_length)
          key_length 1),
    length-derived sha1_factory sha1 sha1_factory-IsHash password (unsalted iteration key_length)
        key_length 1,
  ),
)

-- ===== src/Common/Effects.antt =====
-- What a piece of C++ can do: return a value, leave defined behaviour, or (in the model alone) use
-- up the fuel of a loop.
use Prim.Native.Nat.{ℕ, ◌≤◌}
use mathlib.Core.Path.{◌≡◌, refl}
use mathlib.Core.Logic.{◌≢◌}
use mathlib.Core.List.{List, [], ◌∷◌, ◌++◌}
use mathlib.Core.Option.{Option, none, some}
use native.Mathlib.Omega.{arith}
use mathlib.Core.Bool.{Bool, true, false}
use jcu_dparm.Common.Lists.{get_elem?}
use jcu_dparm.Common.Tests.{if◌then◌else◌}

-- `fault` is a read outside the object, a front of an empty vector or a shift past the width;
-- `stuck` says that the fuel ran out, and is no behaviour of the program.
pub data Outcome {ℓ} (A : Type ℓ) : Type ℓ where
  done : A → Outcome A
  fault : Outcome A
  stuck : Outcome A

infixl 5 ◌>>=◌
abbrev pub ◌>>=◌ {ℓ κ} : {A : Type ℓ} {B : Type κ} → Outcome A → (A → Outcome B) → Outcome B
done a >>= f = f a
fault >>= f = fault
stuck >>= f = stuck

-- A read of one byte of an object.
abbrev pub read : List ℕ → ℕ → Outcome ℕ
read m i = elim (get_elem? m i) [ none ↦ fault | some x ↦ done x ]

-- `std::vector(p, p + n)` for a pointer into an object with the bytes `m` from `p` on.
abbrev pub read_bytes : ℕ → List ℕ → Outcome (List ℕ)
read_bytes ℕ.zero m = done []
read_bytes (ℕ.suc n) [] = fault
read_bytes (ℕ.suc n) (x ∷ m) = read_bytes n m >>= λ r. done (x ∷ r)

pub read_bytes-append :
    (xs ys : List ℕ) (n : ℕ)
    → n ≡ jcu_dparm.Common.Lists.length xs
    → read_bytes n (xs ++ ys) ≡ done xs
read_bytes-append [] ys ℕ.zero h = refl
read_bytes-append [] ys (ℕ.suc n) h = absurd (omega arith)
read_bytes-append (x ∷ xs) ys ℕ.zero h = absurd (omega arith)
read_bytes-append (x ∷ xs) ys (ℕ.suc n) h = rw (read_bytes-append xs ys n (omega arith))

pub read_bytes-take :
    (n : ℕ) (m : List ℕ)
    → n ≤ jcu_dparm.Common.Lists.length m
    → read_bytes n m ≡ done (jcu_dparm.Common.Lists.take n m)
read_bytes-take ℕ.zero m h = refl
read_bytes-take (ℕ.suc n) [] h = absurd (omega arith)
read_bytes-take (ℕ.suc n) (x ∷ m) h = rw (read_bytes-take n m (omega arith)) refl

pub done-injective {ℓ} : {A : Type ℓ} {x y : A} → done x ≡ done y → x ≡ y
done-injective e = cc

-- Inversion of a bind that returns a value.
pub >>=-eq-done {ℓ κ} :
    {A : Type ℓ} {B : Type κ} (m : Outcome A) (f : A → Outcome B) {b : B}
    → (m >>= f) ≡ done b
    → (a : A) × (m ≡ done a) × (f a ≡ done b)
>>=-eq-done (done a) f e = (a, refl, e)
>>=-eq-done fault f e = cc
>>=-eq-done stuck f e = cc

-- A bind does not get stuck when its parts do not.
pub bind-ne-stuck {ℓ κ} :
    {A : Type ℓ} {B : Type κ} (m : Outcome A) (f : A → Outcome B)
    → m ≢ stuck
    → ((a : A) → f a ≢ stuck)
    → (m >>= f) ≢ stuck
bind-ne-stuck (done a) f h k = k a
bind-ne-stuck fault f h k = λ e. cc
bind-ne-stuck stuck f h k = absurd (h refl)

pub if-ne-stuck {ℓ} :
    {A : Type ℓ} (b : Bool) (x y : Outcome A)
    → (b ≡ true → x ≢ stuck)
    → (b ≡ false → y ≢ stuck)
    → (if b then x else y) ≢ stuck
if-ne-stuck true x y h k = h refl
if-ne-stuck false x y h k = k refl

pub done-ne-stuck {ℓ} : {A : Type ℓ} (a : A) → done a ≢ stuck
done-ne-stuck a e = cc

-- The same, for a proof that goes on with what was returned.
pub >>=-elim {ℓ κ ι} :
    {A : Type ℓ} {B : Type κ} {C : Type ι} (m : Outcome A) (f : A → Outcome B) {b : B}
    → (m >>= f) ≡ done b
    → ((a : A) → m ≡ done a → f a ≡ done b → C)
    → C
>>=-elim (done a) f e k = k a refl e
>>=-elim fault f e k = absurd cc
>>=-elim stuck f e k = absurd cc

-- A test of a pointer: `none` is a null pointer.
abbrev pub on_pointer {ℓ κ} : {A : Type ℓ} {B : Type κ} → Option A → B → (A → B) → B
on_pointer none b f = b
on_pointer (some a) b f = f a

pub on_pointer-ne-stuck {ℓ κ} :
    {A : Type ℓ} {B : Type κ} (o : Option A) (m : Outcome B) (f : A → Outcome B)
    → m ≢ stuck
    → ((a : A) → f a ≢ stuck)
    → on_pointer o m f ≢ stuck
on_pointer-ne-stuck none m f h k = h
on_pointer-ne-stuck (some a) m f h k = k a

pub on_pointer-elim {ℓ κ ι} :
    {A : Type ℓ} {B : Type κ} {C : Type ι} (o : Option A) (m : B) (f : A → B) {b : B}
    → on_pointer o m f ≡ b
    → (o ≡ none → m ≡ b → C)
    → ((a : A) → o ≡ some a → f a ≡ b → C)
    → C
on_pointer-elim none m f e h k = h refl e
on_pointer-elim (some a) m f e h k = k a refl e

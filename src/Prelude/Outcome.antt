-- ===== src/Prelude/Outcome.antt =====
-- How a piece of kernel code ends: with a value, in `panic`, in an access that C gives no meaning, or
-- not within the fuel that a loop was given.
use mathlib.Core.Path.{◌≡◌, refl}
use mathlib.Core.Bool.{Bool, true, false}
use levos.Prelude.Tests.{if◌then◌else◌}

pub data Outcome {ℓ} (A : Type ℓ) : Type ℓ where
  ok : A → Outcome A
  panic : Outcome A
  fault : Outcome A
  hang : Outcome A

infixl 5 ◌>>=◌
abbrev pub ◌>>=◌ {ℓ κ} : {A : Type ℓ} {B : Type κ} → Outcome A → (A → Outcome B) → Outcome B
ok a >>= f = f a
panic >>= f = panic
fault >>= f = fault
hang >>= f = hang

-- A chain that ends with a value went through a first value.
module _ {ℓ κ} {A : Type ℓ} {B : Type κ} (f : A → Outcome B) (b : B) where
  pub >>=-eq-ok : (m : Outcome A) → (m >>= f) ≡ ok b → (a : A) × (f a ≡ ok b) × (m ≡ ok a)
  >>=-eq-ok (ok a) h = (a, h, refl)
  >>=-eq-ok panic h = cc
  >>=-eq-ok fault h = cc
  >>=-eq-ok hang h = cc

pub ok-injective {ℓ} : {A : Type ℓ} {a b : A} → ok a ≡ ok b → a ≡ b
ok-injective e = cc

-- `P` holds of the value that a piece of code ends with, if it ends with one.
unfoldable pub Ensures : {A : Type 0} → (A → Type 0) → Outcome A → Type 0
Ensures P (ok a) = P a
Ensures P panic = Unit
Ensures P fault = Unit
Ensures P hang = Unit

module _ {A B : Type 0} (P : B → Type 0) where
  pub Ensures->>= :
      (m : Outcome A) (f : A → Outcome B) → ((a : A) → Ensures P (f a)) → Ensures P (m >>= f)
  unfolding Ensures
  Ensures->>= (ok a) f h = h a
  Ensures->>= panic f h = tt
  Ensures->>= fault f h = tt
  Ensures->>= hang f h = tt

pub Ensures-chain :
    {A B C : Type 0} (P : C → Type 0) (m : Outcome A) (f : A → Outcome B) (g : B → Outcome C)
    → ((a : A) → Ensures P (f a >>= g))
    → Ensures P (m >>= f >>= g)
unfolding Ensures
Ensures-chain P (ok a) f g h = h a
Ensures-chain P panic f g h = tt
Ensures-chain P fault f g h = tt
Ensures-chain P hang f g h = tt

pub Ensures-if :
    {A : Type 0} (P : A → Type 0) (b : Bool) (m n : Outcome A)
    → Ensures P m
    → Ensures P n
    → Ensures P (if b then m else n)
Ensures-if P true m n h h' = h
Ensures-if P false m n h h' = h'

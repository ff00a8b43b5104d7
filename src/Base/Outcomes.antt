-- ===== src/Base/Outcomes.antt =====
-- What a run of C++ code can come to: a value, undefined behaviour, or a loop cut off by its fuel.
use mathlib.Core.Path.{◌≡◌, refl}
use mathlib.Core.Logic.{◌⊎◌, inl, inr}
use mathlib.Core.Option.{Option, none, some}

-- `fault` is undefined behaviour, such as a read through a null pointer or out of bounds.
pub data Exec {ℓ} (A : Type ℓ) : Type ℓ where
  done : A → Exec A
  fault : Exec A
  out_of_fuel : Exec A

infixl 5 ◌>>=◌ ◌>>◌
abbrev pub ◌>>=◌ {ℓ κ} : {A : Type ℓ} {B : Type κ} → Exec A → (A → Exec B) → Exec B
done a >>= f = f a
fault >>= f = fault
out_of_fuel >>= f = out_of_fuel

abbrev pub ◌>>◌ {ℓ κ} : {A : Type ℓ} {B : Type κ} → Exec A → Exec B → Exec B
m >> k = m >>= λ _. k

-- A step that is undefined where it has no value.
abbrev pub or_fault {ℓ} : {A : Type ℓ} → Option A → Exec A
or_fault none = fault
or_fault (some a) = done a

pub Exec-cases {ℓ} :
    {A : Type ℓ} (x : Exec A) → ((a : A) × (x ≡ done a)) ⊎ ((x ≡ fault) ⊎ (x ≡ out_of_fuel))
Exec-cases (done a) = inl (a, refl)
Exec-cases fault = inr (inl refl)
Exec-cases out_of_fuel = inr (inr refl)

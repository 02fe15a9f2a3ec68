-- ===== src/Base/Faults.antt =====
-- The result of code that may touch memory which was released: a value, or undefined behaviour.
use mathlib.Core.Path.{◌≡◌, refl, ap}
use mathlib.Core.Logic.{◌⊎◌, inl, inr}

pub data Outcome {ℓ} (A : Type ℓ) : Type ℓ where
  ret : A → Outcome A
  fault : Outcome A

-- The value of a call that is known to return.
abbrev pub value_or {ℓ} : {A : Type ℓ} → A → Outcome A → A
value_or d (ret a) = a
value_or d fault = d

pub Outcome-cases {ℓ} : {A : Type ℓ} (r : Outcome A) → (r ≡ fault) ⊎ ((a : A) × (r ≡ ret a))
Outcome-cases (ret a) = inr (a, refl)
Outcome-cases fault = inl refl

pub ret-injective {ℓ} : {A : Type ℓ} {a b : A} → ret a ≡ ret b → a ≡ b
ret-injective {a = a} h = ap (value_or a) h

infixl 5 ◌>>=◌
abbrev pub ◌>>=◌ {ℓ κ} : {A : Type ℓ} {B : Type κ} → Outcome A → (A → Outcome B) → Outcome B
ret a >>= f = f a
fault >>= f = fault

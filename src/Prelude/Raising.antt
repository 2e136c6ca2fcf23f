-- ===== src/Prelude/Raising.antt =====
-- Code that may raise: a result is a value or the exception.
use mathlib.Core.Path.{◌≡◌, refl}
use mathlib.Core.Logic.{◌⊎◌, inl, inr}

pub data Outcome {ℓ κ} (E : Type ℓ) (A : Type κ) : Type (ℓ ⊔ κ) where
  ok : A → Outcome E A
  raised : E → Outcome E A

pub Outcome-cases {ℓ κ} :
    {E : Type ℓ} {A : Type κ} (o : Outcome E A)
    → ((e : E) × (o ≡ raised e)) ⊎ ((a : A) × (o ≡ ok a))
Outcome-cases (raised e) = inl (e, refl)
Outcome-cases (ok a) = inr (a, refl)

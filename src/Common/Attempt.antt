-- ===== src/Common/Attempt.antt =====
-- The results of calls that may raise.
use net_audit.Common.Text.{Text}
use mathlib.Core.Path.{◌≡◌, refl}
use mathlib.Core.Logic.{◌⊎◌, inl, inr}

-- A call's value, or the text of the exception that it raises.
pub data Attempt {ℓ} (A : Type ℓ) : Type ℓ where
  done : A → Attempt A
  failed : Text → Attempt A

pub Attempt-cases {ℓ} :
    {A : Type ℓ} (a : Attempt A) → ((e : Text) × (a ≡ failed e)) ⊎ ((v : A) × (a ≡ done v))
Attempt-cases (failed e) = inl (e, refl)
Attempt-cases (done v) = inr (v, refl)

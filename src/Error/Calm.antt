-- ===== src/Error/Calm.antt =====
-- Outcomes of src/error.rs that are no panic.
use async_imap.Base.{◌≢◌, refl, arith, List, [], ◌∷◌}
use async_imap.Error.{Error, Outcome, ok, err, panic, ◌>>=◌}

pub record IsCalm {ℓ} {A : Type ℓ} (o : Outcome A) : Type ℓ where
  pub no_panic : o ≢ panic

abbrev pub AllCalm {ℓ} : {A : Type ℓ} → List (Outcome A) → Type ℓ
AllCalm [] = Unit
AllCalm (o ∷ os) = IsCalm o × AllCalm os

module _ {ℓ} {A : Type ℓ} where
  pub IsCalm-ok : {a : A} → IsCalm (ok a)
  IsCalm-ok = record { no_panic = λ e. ground arith }

  pub IsCalm-err : {e : Error} → IsCalm {A = A} (err e)
  IsCalm-err = record { no_panic = λ e. ground arith }

module _ {ℓ κ} {A : Type ℓ} {B : Type κ} where
  pub bind-IsCalm :
      (o : Outcome A) (f : A → Outcome B) → IsCalm o → ((a : A) → IsCalm (f a)) → IsCalm (o >>= f)
  bind-IsCalm (ok a) f h k = k a
  bind-IsCalm (err e) f h k = IsCalm-err
  bind-IsCalm panic f h k = absurd (h.no_panic refl)

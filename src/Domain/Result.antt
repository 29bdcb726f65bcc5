-- ===== src/Domain/Result.antt =====
-- Functions that may throw, and objects with state whose methods may throw
-- (packages/domain/src/errors.ts and the errors of packages/db/src).
use labpics_id.Prelude.{◌≡◌, refl, ◌⊎◌, inl, inr}

-- `domain_error`, `invalid_email` and `already_revoked` are the classes of errors.ts; `unique_violation`
-- is a failed INSERT, and `unavailable` any other failure of the database or of a called service.
pub data Fault : Type 0 where
  domain_error invalid_email already_revoked unique_violation unavailable : Fault

pub data Result {ℓ} (A : Type ℓ) : Type ℓ where
  ok : A → Result A
  thrown : Fault → Result A

-- An action on a state. What was written before a throw stays written, so that the state comes
-- back beside the error too; a transaction undoes it.
abbrev pub Exec {ℓ} : Type ℓ → Type ℓ → Type ℓ
Exec S A = S → Result A × S

module _ {ℓ} {S A : Type ℓ} where
  abbrev pub pure : A → Exec S A
  pure a s = (ok a, s)

  abbrev pub throw : Fault → Exec S A
  throw f s = (thrown f, s)

  abbrev pub lift : Result A → Exec S A
  lift r s = (r, s)

module _ {ℓ} {S A B : Type ℓ} where
  abbrev pub continue : Result A → (A → Exec S B) → Exec S B
  continue (ok a) f s = f a s
  continue (thrown e) f s = (thrown e, s)

  infixl 10 ◌>>=◌ ◌>>◌
  abbrev pub ◌>>=◌ : Exec S A → (A → Exec S B) → Exec S B
  ◌>>=◌ m f s = let (r, s') = m s in continue r f s'

  abbrev pub ◌>>◌ : Exec S A → Exec S B → Exec S B
  m >> n = m >>= λ _. n

-- To split on a computed result and keep the equation.
pub Result-cases {ℓ} :
    {A : Type ℓ} (r : Result A) → ((a : A) × (r ≡ ok a)) ⊎ ((f : Fault) × (r ≡ thrown f))
Result-cases (ok a) = inl (a, refl)
Result-cases (thrown f) = inr (f, refl)

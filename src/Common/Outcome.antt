-- ===== src/Common/Outcome.antt =====
-- Go's `(T, error)` results, and methods that read and write a shared state. The state comes back
-- beside an error too, since what was written before an error stays written.
use mathlib.Core.Path.{◌≡◌, refl}
use mathlib.Core.Logic.{◌⊎◌, inl, inr}

pub data Result {ℓ} (E A : Type ℓ) : Type ℓ where
  ok : A → Result E A
  err : E → Result E A

abbrev pub Exec {ℓ} : Type ℓ → Type ℓ → Type ℓ → Type ℓ
Exec S E A = S → Result E A × S

pub Result-cases {ℓ} :
    {E A : Type ℓ} (r : Result E A) → ((e : E) × (r ≡ err e)) ⊎ ((a : A) × (r ≡ ok a))
Result-cases (ok a) = inr (a, refl)
Result-cases (err e) = inl (e, refl)

module _ {ℓ} {S E A : Type ℓ} where
  abbrev pub pure : A → Exec S E A
  pure a s = (ok a, s)

  abbrev pub raise : E → Exec S E A
  raise e s = (err e, s)

  abbrev pub lift : Result E A → Exec S E A
  lift r s = (r, s)

  abbrev pub gets : (S → A) → Exec S E A
  gets f s = (ok (f s), s)

module _ {ℓ} {S E A B : Type ℓ} where
  abbrev pub continue : Result E A → (A → Exec S E B) → Exec S E B
  continue (ok a) f s = f a s
  continue (err e) f s = (err e, s)

  infixl 10 ◌>>=◌
  abbrev pub ◌>>=◌ : Exec S E A → (A → Exec S E B) → Exec S E B
  ◌>>=◌ m f s = let (r, s') = m s in continue r f s'

module _ {ℓ} {S E B : Type ℓ} where
  infixl 10 ◌>>◌
  abbrev pub ◌>>◌ : Exec S E (Unit {ℓ}) → Exec S E B → Exec S E B
  m >> n = m >>= λ _. n

-- The outcome of a pure step of Go code, with the error that the caller makes of a failure.
abbrev pub or_fail {ℓ} : {D E A : Type ℓ} → Result D A → (D → E) → Result E A
or_fail (ok a) f = ok a
or_fail (err d) f = err (f d)

-- How a run of a method ended, with the state that it left.
pub Exec-cases {ℓ} :
    {S E A : Type ℓ} (r : Result E A × S)
    → ((e : E) × (t : S) × (r ≡ (err e, t))) ⊎ ((a : A) × (t : S) × (r ≡ (ok a, t)))
Exec-cases (ok a, t) = inr (a, t, refl)
Exec-cases (err e, t) = inl (e, t, refl)

-- ===== src/Prelude/Raising.antt =====
-- A call that returns or raises, and a call that also writes to a store. Each repository call
-- commits by itself, so what was written before a raise stays written: the state comes back beside
-- the exception too. `E` is the component's type of exceptions.
use mathlib.Core.Path.{◌≡◌, refl}
use mathlib.Core.Logic.{◌⊎◌, inl, inr}

pub data Outcome {ℓ} (E A : Type ℓ) : Type ℓ where
  return : A → Outcome E A
  raise : E → Outcome E A

abbrev pub Exec : Type 0 → Type 0 → Type 0 → Type 0
Exec E S A = S → Outcome E A × S

module _ {E S A : Type 0} where
  abbrev pub pure : A → Exec E S A
  pure a s = (return a, s)

  abbrev pub throw : E → Exec E S A
  throw e s = (raise e, s)

  -- a check that does not write
  abbrev pub lift : Outcome E A → Exec E S A
  lift r s = (r, s)

  abbrev pub gets : (S → A) → Exec E S A
  gets f s = (return (f s), s)

  abbrev pub writes : (S → S) → A → Exec E S A
  writes f a s = (return a, f s)

module _ {E S A B : Type 0} where
  abbrev pub continue : Outcome E A → (A → Exec E S B) → Exec E S B
  continue (return a) f s = f a s
  continue (raise e) f s = (raise e, s)

  infixl 10 ◌>>=◌ ◌>>◌
  abbrev pub ◌>>=◌ : Exec E S A → (A → Exec E S B) → Exec E S B
  ◌>>=◌ m f s = let (r, s') = m s in continue r f s'

  abbrev pub ◌>>◌ : Exec E S A → Exec E S B → Exec E S B
  m >> n = m >>= λ _. n

pub Outcome-cases {ℓ} :
    {E A : Type ℓ} (r : Outcome E A) → ((a : A) × (r ≡ return a)) ⊎ ((e : E) × (r ≡ raise e))
Outcome-cases (return a) = inl (a, refl)
Outcome-cases (raise e) = inr (e, refl)

-- a chain that returned: both of its parts did
pub >>=-return :
    {E S A B : Type 0} (m : Exec E S A) (f : A → Exec E S B) (s : S) {b : B} {u : S}
    → (m >>= f) s ≡ (return b, u)
    → (a : A) × (t : S) × (m s ≡ (return a, t)) × (f a t ≡ (return b, u))
>>=-return {E} {S} {A} {B} m f s {b} {u} h = go (m s) refl h
  where
    go :
        (r : Outcome E A × S)
        → m s ≡ r
        → continue r.0 f r.1 ≡ (return b, u)
        → (a : A) × (t : S) × (m s ≡ (return a, t)) × (f a t ≡ (return b, u))
    go (return a, t) e k = (a, t, e, k)
    go (raise e', t) e k = cc

-- ===== src/Common/Results.antt =====
-- Go's `(T, error)` results: a value or an error, and chains of them.
use mathlib.Core.Path.{◌≡◌, refl}

pub data Result {ℓ} (E A : Type ℓ) : Type ℓ where
  err : E → Result E A
  ok : A → Result E A

module _ {ℓ} {E A B : Type ℓ} where
  infixl 5 ◌>>=◌
  abbrev pub ◌>>=◌ : Result E A → (A → Result E B) → Result E B
  err e >>= next = err e
  ok x >>= next = next x

  -- Both steps of a chain that gives a value have given one.
  pub >>=-eq-ok :
      (first : Result E A) (next : A → Result E B) {y : B}
      → (first >>= next) ≡ ok y
      → (x : A) × (next x ≡ ok y) × (first ≡ ok x)
  >>=-eq-ok (err e) next h = absurd (cc)
  >>=-eq-ok (ok x) next h = (x, h, refl)

-- ===== src/Common/Outcomes.antt =====
-- How a Go call ends: it returns, it panics, or it waits for something that no one will do.
use mathlib.Core.Path.{◌≡◌, refl}
use mathlib.Core.Logic.{◌⊎◌, inl, inr}

pub data Outcome {ℓ} (A : Type ℓ) : Type ℓ where
  returns : A → Outcome A
  panics blocks : Outcome A

module _ {ℓ} {A B : Type ℓ} where
  infixl 5 ◌andthen◌
  abbrev pub ◌andthen◌ : Outcome A → (A → Outcome B) → Outcome B
  panics andthen next = panics
  blocks andthen next = blocks
  returns x andthen next = next x

  pub andthen-eq-returns :
      (first : Outcome A) (next : A → Outcome B) {y : B}
      → (first andthen next) ≡ returns y
      → (x : A) × (next x ≡ returns y) × (first ≡ returns x)
  andthen-eq-returns panics next h = absurd (cc)
  andthen-eq-returns blocks next h = absurd (cc)
  andthen-eq-returns (returns x) next h = (x, h, refl)

pub Outcome-cases {ℓ} :
    {A : Type ℓ} (o : Outcome A) → (o ≡ panics) ⊎ (o ≡ blocks) ⊎ ((x : A) × (o ≡ returns x))
Outcome-cases panics = inl refl
Outcome-cases blocks = inr (inl refl)
Outcome-cases (returns x) = inr (inr (x, refl))

-- ===== src/Common/Maps.antt =====
-- Go's maps: association lists, compared by a decidable equality of the keys.
use mathlib.Core.Path.{◌≡◌, refl}
use mathlib.Core.Logic.{ite, ◌≢◌}
use mathlib.Core.List.{List, [], ◌∷◌}
use mathlib.Core.Option.{Option, none, some}
use native.Mathlib.Omega.{arith}

abbrev pub Dict {ℓ} : Type ℓ → Type ℓ → Type ℓ
Dict K V = List (K × V)

module _ {ℓ} {K V : Type ℓ} (dec : Discrete K) where
  unfoldable pub lookup : Dict K V → K → Option V
  lookup [] k = none
  lookup ((j, v) ∷ m) k = ite (dec j k) (some v) (lookup m k)

  -- `m[k] = v`
  unfoldable pub insert : Dict K V → K → V → Dict K V
  insert [] k v = (k, v) ∷ []
  insert ((j, w) ∷ m) k v = ite (dec j k) ((k, v) ∷ m) ((j, w) ∷ insert m k v)

  -- `delete(m, k)`
  unfoldable pub delete : Dict K V → K → Dict K V
  delete [] k = []
  delete ((j, w) ∷ m) k = ite (dec j k) (delete m k) ((j, w) ∷ delete m k)

  pub lookup-insert :
      (m : Dict K V) (k j : K) (v : V)
      → lookup (insert m k v) j ≡ ite (dec k j) (some v) (lookup m j)
  unfolding lookup insert
  lookup-insert [] k j v = refl
  lookup-insert ((i, w) ∷ m) k j v = ground (arith, lookup-insert m k j v)

  pub lookup-delete :
      (m : Dict K V) (k j : K) → lookup (delete m k) j ≡ ite (dec k j) none (lookup m j)
  unfolding lookup delete
  lookup-delete [] k j = ground arith
  lookup-delete ((i, w) ∷ m) k j = ground (arith, lookup-delete m k j)

  pub lookup-insert_self : (m : Dict K V) (k : K) (v : V) → lookup (insert m k v) k ≡ some v
  lookup-insert_self m k v = ground (arith, lookup-insert m k k v)

  pub lookup-insert_ne :
      (m : Dict K V) (k j : K) (v : V) → k ≢ j → lookup (insert m k v) j ≡ lookup m j
  lookup-insert_ne m k j v ne = ground (arith, lookup-insert m k j v)

  pub lookup-delete_self : (m : Dict K V) (k : K) → lookup (delete m k) k ≡ none
  lookup-delete_self m k = ground (arith, lookup-delete m k k)

  pub lookup-delete_ne : (m : Dict K V) (k j : K) → k ≢ j → lookup (delete m k) j ≡ lookup m j
  lookup-delete_ne m k j ne = ground (arith, lookup-delete m k j)

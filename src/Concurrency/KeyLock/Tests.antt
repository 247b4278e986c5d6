-- ===== src/Concurrency/KeyLock/Tests.antt =====
-- A lock taken, waited for and given back.
use distbuild.Common.{
  ℕ, ◌≡◌, ◌≢◌, refl, true, false, [], ◌∷◌, insert, lookup, ℕ_discrete, returns, blocks,
}
use distbuild.Concurrency.KeyLock.{KeyLocker, new_key_locker, is_full, full_at, lock, unlock}
use distbuild.Concurrency.KeyLock.Exclusion.{lock-excludes}

abbrev taken : KeyLocker ℕ
taken = record { mu_held = false; locks = (7, true) ∷ [] }

lock-new : lock ℕ_discrete 7 new_key_locker ≡ returns taken
unfolding lock full_at is_full new_key_locker ℕ_discrete lookup insert
lock-new = refl

lock-excludes_example :
    (lock ℕ_discrete 7 taken ≡ blocks)
    × ((n : KeyLocker ℕ) × (unlock ℕ_discrete 7 taken ≡ returns n)
        × (lock ℕ_discrete 7 n ≡ returns (record n { locks = insert ℕ_discrete n.locks 7 true }))
        × ((other : ℕ)
            → 7 ≢ other
            → (full_at ℕ_discrete taken other ≡ full_at ℕ_discrete new_key_locker other)
              × (full_at ℕ_discrete n other ≡ full_at ℕ_discrete new_key_locker other)))
lock-excludes_example = lock-excludes ℕ_discrete 7 new_key_locker taken lock-new

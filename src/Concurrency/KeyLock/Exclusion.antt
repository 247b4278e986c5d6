-- ===== src/Concurrency/KeyLock/Exclusion.antt =====
-- A key has at most one holder, and the holders of other keys are not in its way.
use distbuild.Common.{
  ◌≡◌, ◌≢◌, refl, ap, ◌∙◌, true, false, none, some, lookup, insert, lookup-insert_self,
  lookup-insert_ne, returns, blocks, arith,
}
use distbuild.Concurrency.KeyLock.{KeyLocker, is_full, full_at, lock, unlock}

module _ {K : Type 0} (key_discrete : Discrete K) where
  lock-returns :
      (key : K) (l m : KeyLocker K)
      → lock key_discrete key l ≡ returns m
      → (m.mu_held ≡ false) × (m.locks ≡ insert key_discrete l.locks key true)
  unfolding lock full_at is_full
  lock-returns key l m e = (ground arith, ground arith)

  -- A key that is locked makes a second `Lock` of it wait. `Unlock` ends that: it returns, and then
  -- `Lock` returns again, with the locks as they were after the first. The other keys are as before.
  pub lock-excludes :
      (key : K) (l m : KeyLocker K)
      → lock key_discrete key l ≡ returns m
      → (lock key_discrete key m ≡ blocks)
        × ((n : KeyLocker K) × (unlock key_discrete key m ≡ returns n)
            × (lock key_discrete key n
                ≡ returns (record n { locks = insert key_discrete n.locks key true }))
            × ((other : K)
                → key ≢ other
                → (full_at key_discrete m other ≡ full_at key_discrete l other)
                  × (full_at key_discrete n other ≡ full_at key_discrete l other)))
  unfolding lock unlock full_at is_full
  lock-excludes key l m e =
      let (free, now) = lock-returns key l m e in
      let full : lookup key_discrete m.locks key ≡ some true =
        ap (λ d. lookup key_discrete d key) now
        ∙ lookup-insert_self key_discrete l.locks key true in
      let n = record m { locks = insert key_discrete m.locks key false } in
      let unlocked = lookup-insert_self key_discrete m.locks key false in
      (
        ground (arith, free, full),
        (
          n,
          ground (arith, free, full),
          ground (arith, free, unlocked),
          λ other ne.
              let before =
                ap (λ d. is_full (lookup key_discrete d other)) now
                ∙ ap is_full (lookup-insert_ne key_discrete l.locks key other true ne) in
              (
                before,
                ap is_full (lookup-insert_ne key_discrete m.locks key other false ne) ∙ before,
              ),
        ),
      )

  -- After an `Unlock` of a key that no one has ever locked every later call waits.
  pub unlock_unknown :
      (key : K) (l : KeyLocker K)
      → l.mu_held ≡ false
      → lookup key_discrete l.locks key ≡ none
      → (m : KeyLocker K) × (unlock key_discrete key l ≡ returns m)
        × ((other : K)
            → (lock key_discrete other m ≡ blocks) × (unlock key_discrete other m ≡ blocks))
  unfolding lock unlock
  unlock_unknown key l free absent =
      (record l { mu_held = true }, ground (arith, free, absent), λ other. (refl, refl))

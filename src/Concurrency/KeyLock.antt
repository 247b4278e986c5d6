-- ===== src/Concurrency/KeyLock.antt =====
-- pkg/concurrency/key_lock.go. A channel of capacity one is the Boolean that it is
-- full; `mu_held` says that a call has returned without releasing `mu`.
pub mod Exclusion
pub mod Tests
use distbuild.Common.{
  ◌≡◌, [], Bool, true, false, Option, none, some, Dict, lookup, insert, if◌then◌else◌, Outcome,
  returns, blocks, is_some,
}

pub record KeyLocker (K : Type 0) : Type 0 where
  pub mu_held : Bool
  pub locks : Dict K Bool

pub new_key_locker : {K : Type 0} → KeyLocker K
new_key_locker = record { mu_held = false; locks = [] }

-- A missing channel is made before it is used.
pub is_full : Option Bool → Bool
is_full none = false
is_full (some full) = full

module _ {K : Type 0} (key_discrete : Discrete K) where
  pub full_at : KeyLocker K → K → Bool
  full_at l key = is_full (lookup key_discrete l.locks key)

  -- `Lock` pushes to the channel of the key, which waits while it is full.
  pub lock : K → KeyLocker K → Outcome (KeyLocker K)
  lock key l =
      if l.mu_held
      then blocks
      else if full_at l key
      then blocks
      else returns (record l { locks = insert key_discrete l.locks key true })

  -- `Unlock` of a key that was never locked returns with `mu` held.
  pub unlock : K → KeyLocker K → Outcome (KeyLocker K)
  unlock key l =
      if l.mu_held
      then blocks
      else if is_some (lookup key_discrete l.locks key)
      then (if full_at l key
          then returns (record l { locks = insert key_discrete l.locks key false })
          else blocks)
      else returns (record l { mu_held = true })

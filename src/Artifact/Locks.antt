-- ===== src/Artifact/Locks.antt =====
-- What the operations of the cache do to its locks and directories, outcome by outcome.
use distbuild.Common.{
  ℕ, zero, suc, ◌≡◌, ◌∙◌, ◌⊎◌, inl, inr, refl, ap, ite, false, Option, none, some, Option-cases,
  Dict, lookup, insert, lookup-insert, lookup-delete, ok, err, ℤ, pos, inc, dec, is_some, arith,
}
use distbuild.Build.{BuildId, id_discrete}
use distbuild.Artifact.{
  OsError, Error, not_found, os, Cache, or_zero, is_positive, readers, read_unlock, stat_committed,
}

-- The entry of `readLocked` for so many readers, and of `writeLocked` for so many writers.
abbrev pub tally : ℕ → Option ℤ
tally zero = none
tally (suc n) = some (pos (suc n))

abbrev pub flag : ℕ → Option (Unit {0})
flag zero = none
flag (suc n) = some tt

pub or_zero-tally : (n : ℕ) → or_zero (tally n) ≡ pos n
or_zero-tally zero = refl
or_zero-tally (suc n) = refl

pub flag-none : (n : ℕ) → flag n ≡ none → n ≡ 0
flag-none zero e = refl
flag-none (suc n) e = absurd (cc)

pub flag-is_some : (n : ℕ) → is_some (flag n) ≡ false → n ≡ 0
flag-is_some zero e = refl
flag-is_some (suc n) e = absurd (cc)

-- `d` has the entries of `c` but for one key, which has `v`.
abbrev pub Sets : {V : Type 0} → BuildId → Option V → Dict BuildId V → Dict BuildId V → Type 0
Sets id v c d =
    (k : BuildId) → lookup id_discrete d k ≡ ite (id_discrete id k) v (lookup id_discrete c k)

abbrev pub Agrees : {V : Type 0} → Dict BuildId V → Dict BuildId V → Type 0
Agrees c d = (k : BuildId) → lookup id_discrete d k ≡ lookup id_discrete c k

-- The same locks and committed directories.
pub record Unchanged {Tree : Type 0} (c c' : Cache Tree) : Type 0 where
  pub reading : Agrees c.reading c'.reading
  pub writing : Agrees c.writing c'.writing
  pub committed : c'.committed ≡ c.committed

-- One more reader, of an artifact that no one writes.
pub record ReadLocked {Tree : Type 0} (id : BuildId) (n : ℕ) (c c' : Cache Tree) : Type 0 where
  pub unwritten : lookup id_discrete c.writing id ≡ none
  pub reading : Sets id (tally (suc n)) c.reading c'.reading
  pub writing : Agrees c.writing c'.writing
  pub committed : c'.committed ≡ c.committed

-- One more writer, of an artifact that no one reads or writes.
pub record WriteLocked {Tree : Type 0} (id : BuildId) (c c' : Cache Tree) : Type 0 where
  pub unwritten : lookup id_discrete c.writing id ≡ none
  pub unread : is_positive (readers c id) ≡ false
  pub reading : Agrees c.reading c'.reading
  pub writing : Sets id (some tt) c.writing c'.writing
  pub committed : c'.committed ≡ c.committed

-- The writer's lock is given back.
pub record WriteFreed {Tree : Type 0} (id : BuildId) (c c' : Cache Tree) : Type 0 where
  pub reading : Agrees c.reading c'.reading
  pub writing : Sets id none c.writing c'.writing

module _ {Tree : Type 0} where
  pub lock_reading :
      (id : BuildId) (c : Cache Tree) (n : ℕ)
      → lookup id_discrete c.reading id ≡ tally n
      → Sets id (tally (suc n)) c.reading (insert id_discrete c.reading id (inc (readers c id)))
  lock_reading id c n e k =
      let now : inc (readers c id) ≡ pos (suc n) = ap inc (ap or_zero e ∙ or_zero-tally n) in
      rw now (lookup-insert id_discrete c.reading id k (pos (suc n)))

  pub unlock_reading :
      (id : BuildId) (c : Cache Tree) (m : ℕ)
      → lookup id_discrete c.reading id ≡ tally (suc m)
      → Sets id (tally m) c.reading (read_unlock id c).reading
  unfolding read_unlock
  unlock_reading id c zero e k =
      let now : dec (readers c id) ≡ pos 0 = ap dec (ap or_zero e) in
      rw now (lookup-delete id_discrete c.reading id k)
  unlock_reading id c (suc m) e k =
      let now : dec (readers c id) ≡ pos (suc m) = ap dec (ap or_zero e) in
      rw now (lookup-insert id_discrete c.reading id k (pos (suc m)))

  pub Agrees-relock :
      (id : BuildId) (n : ℕ) (c : Cache Tree)
      → lookup id_discrete c.reading id ≡ tally n
      → Agrees c.reading
          (read_unlock id
            (record c { reading = insert id_discrete c.reading id (inc (readers c id)) })).reading
  Agrees-relock id n c e k =
      let locked = insert id_discrete c.reading id (inc (readers c id)) in
      let held : lookup id_discrete locked id ≡ tally (suc n) =
        ground (arith, lock_reading id c n e id) in
      ground (
        arith,
        unlock_reading id (record c { reading = locked }) n held k,
        lock_reading id c n e k,
        e,
      )

  pub Unchanged-refl : (c : Cache Tree) → Unchanged c c
  Unchanged-refl c = record { reading = λ k. refl; writing = λ k. refl; committed = refl }

  pub stat_outcome :
      (id : BuildId) (stat : Option OsError) (c : Cache Tree)
      → ((tree : Tree) × (stat_committed id stat c ≡ (c, ok tree))
          × (lookup id_discrete c.committed id ≡ some tree))
        ⊎ ((e : Error) × (stat_committed id stat c ≡ (read_unlock id c, err e)))
  unfolding stat_committed
  stat_outcome id (some e) c = inr (os e, refl)
  stat_outcome id none c = elim (Option-cases (lookup id_discrete c.committed id)) [
    | inl e ↦ inr (not_found, rw (e, stat_committed))
    | inr (tree, e) ↦ inl (tree, rw (e, stat_committed), e)
  ]

  -- `Get` either takes a read lock on a committed directory that no one writes, or fails and leaves
  -- the locks and directories as they were.
  -- Giving a read lock back touches only the readers.
  pub read_unlock_rest :
      (id : BuildId) (c : Cache Tree)
      → ((read_unlock id c).writing ≡ c.writing)
        × ((read_unlock id c).committed ≡ c.committed)
        × ((read_unlock id c).staged ≡ c.staged)
  unfolding read_unlock
  read_unlock_rest id c = (refl, refl, refl)

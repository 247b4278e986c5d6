-- ===== src/Artifact/Holders.antt =====
-- The cache with those who hold its locks: readers between `Get` and `unlock`, writers between
-- `Create` and `commit` or `abort`, and removals that are under way. Each of them gives its lock back
-- once.
pub mod Exclusion
pub mod Counted
pub mod Readers
pub mod Tests
use distbuild.Common.{
  ℕ, zero, suc, ◌+◌, ◌-◌, ◌≤◌, ◌<◌, ◌≡◌, refl, ite, Bool, true, false, Option, none, some, List, [],
  ◌∷◌, Dict, lookup, insert, delete, lookup-insert, lookup-delete, if◌then◌else◌, Result, ok, err,
  ℤ, pos, negsuc, inc, dec, is_some, ltb, arith,
}
use distbuild.Build.{BuildId, id_discrete}
use distbuild.Artifact.{
  OsError, Error, Cache, Removal, removed, failed, or_zero, is_zero, is_positive, read_lock,
  read_unlock, write_lock, write_unlock, remove_all, begin_remove, end_remove, mkdir, make_staged,
  create, abort, rename, commit, stat_committed, get,
}

pub record System (Tree : Type 0) : Type 0 where
  pub cache : Cache Tree
  pub readers : List BuildId
  pub writers : List BuildId
  pub removers : List BuildId

pub data Event (Tree : Type 0) : Type 0 where
  gets : BuildId → Option OsError → Event Tree
  unlocks : BuildId → Event Tree
  creates : BuildId → Tree → Option OsError → Option OsError → Event Tree
  writes : BuildId → (Tree → Tree) → Event Tree
  commits : BuildId → Option OsError → Event Tree
  aborts : BuildId → Removal Tree → Event Tree
  removes : BuildId → Option OsError → Event Tree
  removal_ends : BuildId → Removal Tree → Event Tree

abbrev pub count : BuildId → List BuildId → ℕ
count id [] = 0
count id (x ∷ xs) = let rest = count id xs in ite (id_discrete x id) (suc rest) rest

abbrev pub drop_one : BuildId → List BuildId → List BuildId
drop_one id [] = []
drop_one id (x ∷ xs) = ite (id_discrete x id) xs (x ∷ drop_one id xs)

abbrev holds : BuildId → List BuildId → Bool
holds id xs = ltb 0 (count id xs)

pub count-drop_one :
    (id k : BuildId) (xs : List BuildId)
    → count k (drop_one id xs) ≡ ite (id_discrete id k) (count k xs - 1) (count k xs)
count-drop_one id k [] = ground arith
count-drop_one id k (x ∷ xs) = ground (arith, count-drop_one id k xs)

module _ {Tree : Type 0} where
  -- A call that fails takes no hold.
  abbrev got : BuildId → System Tree → Cache Tree × Result Error Tree → System Tree
  got id s (c, ok _) = record s { cache = c; readers = id ∷ s.readers }
  got id s (c, err _) = record s { cache = c }

  abbrev created : BuildId → System Tree → Cache Tree × Result Error (Unit {0}) → System Tree
  created id s (c, ok _) = record s { cache = c; writers = id ∷ s.writers }
  created id s (c, err _) = record s { cache = c }

  -- What a writer does to its staging directory, where that is there.
  abbrev pub written : BuildId → (Tree → Tree) → Dict BuildId Tree → Dict BuildId Tree
  written id change dirs = elim (lookup id_discrete dirs id) [
    | none ↦ dirs
    | some tree ↦ insert id_discrete dirs id (change tree)
  ]

  abbrev removing : BuildId → System Tree → Result Error (Cache Tree) → System Tree
  removing id s (ok c) = record s { cache = c; removers = id ∷ s.removers }
  removing id s (err _) = s

  pub step : Event Tree → System Tree → System Tree
  step (gets id stat) s = got id s (get id stat s.cache)
  step (unlocks id) s =
      if holds id s.readers
      then record s { cache = read_unlock id s.cache; readers = drop_one id s.readers }
      else s
  step (creates id empty stat mkdir_fails) s =
      created id s (create id empty stat mkdir_fails s.cache)
  step (writes id change) s =
      if holds id s.writers
      then record s { cache = record s.cache { staged = written id change s.cache.staged } }
      else s
  step (commits id fails) s =
      if holds id s.writers
      then record s { cache = (commit id fails s.cache).0; writers = drop_one id s.writers }
      else s
  step (aborts id how) s =
      if holds id s.writers
      then record s { cache = (abort id how s.cache).0; writers = drop_one id s.writers }
      else s
  step (removes id stat) s = removing id s (begin_remove id stat s.cache)
  step (removal_ends id how) s =
      if holds id s.removers
      then record s { cache = (end_remove id how s.cache).0; removers = drop_one id s.removers }
      else s

  pub run : List (Event Tree) → System Tree → System Tree
  run [] s = s
  run (e ∷ es) s = run es (step e s)

-- ===== src/Artifact.antt =====
-- pkg/artifact: the cache of artifacts (cache.go). Each method that takes `mu` is one step; a
-- directory is a value of the type `Tree`, and an operating-system call takes as an argument how it
-- fails, if it does.
pub mod Locks
pub mod Outcomes
pub mod Serving
pub mod Holders
pub mod Tests
use distbuild.Common.{
  ℕ, zero, suc, ◌<◌, ◌≡◌, refl, Bool, true, false, not, ◌&&◌, Option, none, some, List, [], ◌∷◌,
  Dict, lookup, insert, delete, if◌then◌else◌, Result, ok, err, ℤ, pos, negsuc, inc, dec, is_some,
}
use distbuild.Build.{BuildId, id_discrete}

-- An error of the operating system that is not "does not exist".
abbrev pub OsError : Type 0
OsError = ℕ

pub data Error : Type 0 where
  not_found exists write_locked read_locked : Error
  os : OsError → Error

-- `committed` are the directories below `cacheDir`, `staged` those below `tmpDir`.
pub record Cache (Tree : Type 0) : Type 0 where
  pub writing : Dict BuildId (Unit {0})
  pub reading : Dict BuildId ℤ
  pub committed : Dict BuildId Tree
  pub staged : Dict BuildId Tree

-- How `os.RemoveAll` ends. Where it fails it may have removed a part.
pub data Removal (Tree : Type 0) : Type 0 where
  removed : Removal Tree
  failed : OsError → Option Tree → Removal Tree

-- A missing key counts as zero.
abbrev pub or_zero : Option ℤ → ℤ
or_zero none = pos 0
or_zero (some n) = n

abbrev pub is_zero : ℤ → Bool
is_zero (pos zero) = true
is_zero (pos (suc n)) = false
is_zero (negsuc n) = false

abbrev pub is_positive : ℤ → Bool
is_positive (pos zero) = false
is_positive (pos (suc n)) = true
is_positive (negsuc n) = false

module _ {Tree : Type 0} where
  -- After `NewCache`: `tmp` is empty, no lock is held, and what lies in `c` is kept.
  unfoldable pub new_cache : Dict BuildId Tree → Cache Tree
  new_cache on_disk = record { writing = []; reading = []; committed = on_disk; staged = [] }

  abbrev pub readers : Cache Tree → BuildId → ℤ
  readers c id = or_zero (lookup id_discrete c.reading id)

  pub read_lock : BuildId → Cache Tree → Result Error (Cache Tree)
  read_lock id c =
      if is_some (lookup id_discrete c.writing id)
      then err write_locked
      else ok (record c { reading = insert id_discrete c.reading id (inc (readers c id)) })

  pub read_unlock : BuildId → Cache Tree → Cache Tree
  read_unlock id c =
      let n = dec (readers c id) in
      record c {
        reading =
            if is_zero n
            then delete id_discrete c.reading id
            else insert id_discrete c.reading id n;
      }

  -- `stat` is the failure of `os.Stat`, other than that the directory does not exist.
  pub write_lock : BuildId → Bool → Option OsError → Cache Tree → Result Error (Cache Tree)
  write_lock id remove (some e) c = err (os e)
  write_lock id remove none c =
      if is_some (lookup id_discrete c.committed id) && not remove
      then err exists
      else if is_some (lookup id_discrete c.writing id)
      then err write_locked
      else if is_positive (readers c id)
      then err read_locked
      else ok (record c { writing = insert id_discrete c.writing id tt })

  unfoldable pub write_unlock : BuildId → Cache Tree → Cache Tree
  write_unlock id c = record c { writing = delete id_discrete c.writing id }

  remove_all :
      BuildId → Removal Tree → Dict BuildId Tree → Dict BuildId Tree × Result Error (Unit {0})
  remove_all id removed dirs = (delete id_discrete dirs id, ok tt)
  remove_all id (failed e none) dirs = (delete id_discrete dirs id, err (os e))
  remove_all id (failed e (some tree)) dirs = (insert id_discrete dirs id tree, err (os e))

  -- `Remove` up to the lock, and the rest of it: other calls may come between.
  pub begin_remove : BuildId → Option OsError → Cache Tree → Result Error (Cache Tree)
  begin_remove id stat c = write_lock id true stat c

  pub end_remove : BuildId → Removal Tree → Cache Tree → Cache Tree × Result Error (Unit {0})
  end_remove id how c =
      let (dirs, res) = remove_all id how c.committed in
      (write_unlock id (record c { committed = dirs }), res)

  -- `os.MkdirAll` keeps a directory that is there.
  unfoldable pub mkdir : BuildId → Tree → Dict BuildId Tree → Dict BuildId Tree
  mkdir id empty dirs = elim (lookup id_discrete dirs id) [
    | some _ ↦ dirs
    | none ↦ insert id_discrete dirs id empty
  ]

  make_staged : BuildId → Tree → Option OsError → Cache Tree → Cache Tree × Result Error (Unit {0})
  make_staged id empty (some e) c = (write_unlock id c, err (os e))
  make_staged id empty none c = (record c { staged = mkdir id empty c.staged }, ok tt)

  -- Beside the path, which is the identifier's place in `staged`, the caller gets `commit` and `abort`.
  pub create :
      BuildId
      → Tree
      → Option OsError
      → Option OsError
      → Cache Tree
      → Cache Tree × Result Error (Unit {0})
  create id empty stat mkdir_fails c = elim (write_lock id false stat c) [
    | err e ↦ (c, err e)
    | ok c' ↦ make_staged id empty mkdir_fails c'
  ]

  pub abort : BuildId → Removal Tree → Cache Tree → Cache Tree × Result Error (Unit {0})
  abort id how c =
      let (dirs, res) = remove_all id how c.staged in
      (write_unlock id (record c { staged = dirs }), res)

  -- Go's `os.Rename` refuses a target that is a directory. The numbers stand for its errors.
  rename : BuildId → Option OsError → Cache Tree → Cache Tree × Result Error (Unit {0})
  rename id (some e) c = (c, err (os e))
  rename id none c = elim (lookup id_discrete c.staged id) [
    | none ↦ (c, err (os 2))
    | some tree ↦ if is_some (lookup id_discrete c.committed id) then (c, err (os 17)) else (
      record c {
        staged = delete id_discrete c.staged id;
        committed = insert id_discrete c.committed id tree;
      },
      ok tt,
    )
  ]

  pub commit : BuildId → Option OsError → Cache Tree → Cache Tree × Result Error (Unit {0})
  commit id fails c = let (c', res) = rename id fails c in (write_unlock id c', res)

  pub stat_committed : BuildId → Option OsError → Cache Tree → Cache Tree × Result Error Tree
  stat_committed id (some e) c = (read_unlock id c, err (os e))
  stat_committed id none c = elim (lookup id_discrete c.committed id) [
    | none ↦ (read_unlock id c, err not_found)
    | some tree ↦ (c, ok tree)
  ]

  -- The path that `Get` returns is that of the committed directory.
  pub get : BuildId → Option OsError → Cache Tree → Cache Tree × Result Error Tree
  get id stat c = elim (read_lock id c) [ err e ↦ (c, err e) | ok c' ↦ stat_committed id stat c' ]

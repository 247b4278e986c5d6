-- ===== src/Filecache.antt =====
-- pkg/filecache: filecache.go and the upload of handler.go. A directory of the artifact cache holds at
-- most one file, by its bytes.
pub mod Upload
pub mod Stored
pub mod Serving
pub mod Uploading
pub mod Tests
use distbuild.Common.{
  ℕ, zero, suc, ◌≡◌, Bool, true, false, Option, none, some, List, [], ◌∷◌, insert, Result, ok, err,
  Outcome, returns, panics, blocks, ◌andthen◌,
}
use distbuild.Build.{BuildId, id_discrete}
use distbuild.Artifact
use distbuild.Artifact.{
  OsError, Cache, Removal, begin_remove, end_remove, create, commit, abort, get,
}

pub data FileError : Type 0 where
  not_found exists write_locked read_locked : FileError
  other : OsError → FileError

pub convert_err : Artifact.Error → FileError
convert_err Artifact.Error.not_found = not_found
convert_err Artifact.Error.exists = exists
convert_err Artifact.Error.write_locked = write_locked
convert_err Artifact.Error.read_locked = read_locked
convert_err (Artifact.Error.os e) = other e

abbrev pub Directory : Type 0
Directory = Option (List ℕ)

abbrev pub Files : Type 0
Files = Cache Directory

convert : {A : Type 0} → Result Artifact.Error A → Result FileError A
convert (ok a) = ok a
convert (err e) = err (convert_err e)

converted : {A : Type 0} → Files × Result Artifact.Error A → Files × Result FileError A
converted (c, r) = (c, convert r)

-- How the system calls of an upload end: `stat`, `mkdir_all`, `removal` and `rename` in the artifact
-- cache, then `os.Create`, the copy of the body, and the close of the file.
pub record System : Type 0 where
  pub stat : Option OsError
  pub mkdir_all : Option OsError
  pub removal : Removal Directory
  pub rename : Option OsError
  pub create_file : Option OsError
  pub copy : Option OsError
  pub close : Option OsError

-- `Get`; the path that it returns is that of the file in the directory.
pub get_file : BuildId → Option OsError → Files → Files × Result FileError Directory
get_file id stat c = converted (get id stat c)

remove_locked :
    BuildId → System → Files → Result Artifact.Error Files → Files × Result FileError (Unit {0})
remove_locked id sys c (err e) = (c, err (convert_err e))
remove_locked id sys c (ok c') = converted (end_remove id sys.removal c')

pub remove : BuildId → System → Files → Files × Result FileError (Unit {0})
remove id sys c = remove_locked id sys c (begin_remove id sys.stat c)

-- Where `os.Create` fails `Write` calls its result `abort`, which is still nil.
open_file :
    BuildId
    → System
    → Files × Result Artifact.Error (Unit {0})
    → Outcome (Files × Result FileError (Unit {0}))
open_file id sys (c, err e) = returns (c, err (convert_err e))
open_file id sys (c, ok _) = elim sys.create_file [
  | some e ↦ panics
  | none ↦ returns (record c { staged = insert id_discrete c.staged id (some []) }, ok tt)
]

pub write : BuildId → System → Files → Outcome (Files × Result FileError (Unit {0}))
write id sys c = open_file id sys (create id none sys.stat sys.mkdir_all c)

-- `fileWriter.Close`: the commit is made in any case.
closed : System → Files × Result Artifact.Error (Unit {0}) → Files × Result FileError (Unit {0})
closed sys (c, r) = elim sys.close [ some e ↦ (c, err (other e)) | none ↦ (c, convert r) ]

pub close_writer : BuildId → System → Files → Files × Result FileError (Unit {0})
close_writer id sys c = closed sys (commit id sys.rename c)

pub data Response : Type 0 where
  uploaded : Response
  remove_failed create_failed close_failed : FileError → Response
  copy_failed : OsError → Response

-- The deferred `abort`, whose error is dropped.
give_up : BuildId → System → Files → Response → Files × Response
give_up id sys c r = ((abort id sys.removal c).0, r)

after_close : BuildId → System → Files × Result FileError (Unit {0}) → Files × Response
after_close id sys (c, ok _) = (c, uploaded)
after_close id sys (c, err e) = give_up id sys c (close_failed e)

-- From the open writer to the end of `handlePut`.
pub fill : BuildId → List ℕ → System → Files → Files × Response
fill id body sys c = elim sys.copy [
  | some e ↦ give_up id sys c (copy_failed e)
  | none ↦
      after_close id sys
        (close_writer id sys (record c { staged = insert id_discrete c.staged id (some body) }))
]

-- The jump back to `start` takes the rest of the fuel.
retry :
    (Files → Outcome (Files × Response))
    → Files × Result FileError (Unit {0})
    → Outcome (Files × Response)
retry again (c, ok _) = again c
retry again (c, err e) = returns (c, remove_failed e)

opened :
    BuildId
    → List ℕ
    → System
    → (Files → Outcome (Files × Response))
    → Files × Result FileError (Unit {0})
    → Outcome (Files × Response)
opened id body sys again (c, ok _) = returns (fill id body sys c)
opened id body sys again (c, err exists) = retry again (remove id sys c)
opened id body sys again (c, err e) = returns (c, create_failed e)

-- `handlePut` for one file, under its lock. `blocks` stands for the end of the fuel.
pub handle_put : ℕ → BuildId → List ℕ → System → Files → Outcome (Files × Response)
handle_put zero id body sys c = blocks
handle_put (suc fuel) id body sys c =
    write id sys c andthen opened id body sys (handle_put fuel id body sys)

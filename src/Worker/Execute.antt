-- ===== src/Worker/Execute.antt =====
-- pkg/worker/execute.go and copy.go: running the commands of a job. A directory is a value of `Tree`.
pub mod Locks
pub mod Leaves
pub mod Results
pub mod Tests
use distbuild.Common.{
  ℕ, ◌≡◌, Bool, true, false, Option, none, some, List, [], ◌∷◌, ◌++◌, Dict, lookup, insert,
  if◌then◌else◌, Result, ok, err, ℤ, pos, negsuc, Outcome, returns, panics, ◌andthen◌,
}
use distbuild.Build.{Text, Cmd, BuildId, id_discrete, Job, JobContext}
use distbuild.Api.{JobSpec, JobResult}
use distbuild.Artifact.{OsError, Error, Cache, Removal, create, commit, abort, get, read_unlock}

-- Why a source file cannot be linked: the file cache refuses it, or the file system does.
pub data LinkError : Type 0 where
  refused : Error → LinkError
  system : OsError → LinkError

module _ {File : Type 0} where
  -- `linkFiles`. `fails` is how `MkdirAll` or `Link` ends; the lock is given back in either case.
  link_result :
      BuildId
      → Option OsError
      → Cache File × Result Error File
      → Cache File × Result LinkError (Unit {0})
  link_result id fails (c, err e) = (c, err (refused e))
  link_result id none (c, ok file) = (read_unlock id c, ok tt)
  link_result id (some e) (c, ok file) = (read_unlock id c, err (system e))

  pub link_files :
      BuildId
      → Option OsError
      → Option OsError
      → Cache File
      → Cache File × Result LinkError (Unit {0})
  link_files id stat fails c = link_result id fails (get id stat c)

  link_next :
      (Cache File → Cache File × Result LinkError (Unit {0}))
      → Cache File × Result LinkError (Unit {0})
      → Cache File × Result LinkError (Unit {0})
  link_next rest (c, err e) = (c, err e)
  link_next rest (c, ok _) = rest c

  -- The loop over the source files, with how the system calls for each of them end.
  pub link_all :
      (BuildId → Option OsError × Option OsError)
      → Dict BuildId Text
      → Cache File
      → Cache File × Result LinkError (Unit {0})
  link_all ends [] c = (c, ok tt)
  link_all ends ((id, path) ∷ files) c =
      link_next (link_all ends files) (link_files id (ends id).0 (ends id).1 c)

-- How a started process or a file written ends.
pub record Process : Type 0 where
  pub stdout : List ℕ
  pub stderr : List ℕ
  pub error : Option Text

-- `text/template`, processes and files: what `render` and the system give. `render` is none on an
-- error, which `executeJob` ignores.
pub record Machine (Tree : Type 0) : Type 0 where
  pub render : Cmd → JobContext → Option Cmd
  pub process : Cmd → Process
  pub write_file : Cmd → Option Text
  pub output : Cmd → Tree → Tree

is_empty : {A : Type 0} → List A → Bool
is_empty [] = true
is_empty (_ ∷ _) = false

-- `ProcessState` is nil before `Run`, and the exit code of a nil state is -1; Go evaluates it first.
pub execute_command : {Tree : Type 0} → Machine Tree → Cmd → ℤ × Process
execute_command machine cmd =
    if is_empty cmd.exec
    then (if is_empty cmd.cat_output
        then (pos 0, record { stdout = []; stderr = []; error = none })
        else (pos 0, record { stdout = []; stderr = []; error = machine.write_file cmd }))
    else (negsuc 0, machine.process cmd)

pub data ExecuteError : Type 0 where
  link_failed : LinkError → ExecuteError
  create_failed abort_failed commit_failed : Error → ExecuteError
  job_failed : Text → ExecuteError

-- How the system calls around the commands end, and the paths of the directories.
pub record Ends (Tree : Type 0) : Type 0 where
  pub empty : Tree
  pub create_stat : Option OsError
  pub mkdir : Option OsError
  pub dep_stat : BuildId → Option OsError
  pub removal : Removal Tree
  pub rename : Option OsError
  pub source_dir : Text
  pub output_dir : Text
  pub dir_of : BuildId → Text

-- `jobContext.Deps[depJobID] = dir`
dep_dirs : (BuildId → Text) → List BuildId → Dict BuildId Text → Dict BuildId Text
dep_dirs dir_of [] dirs = dirs
dep_dirs dir_of (dep ∷ deps) dirs = dep_dirs dir_of deps (insert id_discrete dirs dep (dir_of dep))

pub job_context : {Tree : Type 0} → Ends Tree → List BuildId → JobContext
job_context ends deps = record {
  source_dir = ends.source_dir;
  output_dir = ends.output_dir;
  deps = dep_dirs ends.dir_of deps [];
}

abbrev pub Executed : Type 0 → Type 0
Executed Tree = (JobResult × Option ExecuteError) × Cache Tree

ran : JobResult → ℤ × Process → JobResult
ran res (code, p) = record res {
  exit_code = code;
  stdout = res.stdout ++ p.stdout;
  stderr = res.stderr ++ p.stderr;
}

empty_result : BuildId → JobResult
empty_result id = record { id = id; stdout = []; stderr = []; exit_code = pos 0; error = none }

module _ {Tree : Type 0} where
  -- A command writes below the output directory.
  work_on : BuildId → (Tree → Tree) → Cache Tree → Cache Tree
  work_on id f c = elim (lookup id_discrete c.staged id) [
    | none ↦ c
    | some tree ↦ record c { staged = insert id_discrete c.staged id (f tree) }
  ]

  dep_next :
      (Cache Tree → Outcome (Cache Tree)) → Cache Tree × Result Error Tree → Outcome (Cache Tree)
  dep_next rest (c, err e) = panics
  dep_next rest (c, ok tree) = rest c

  -- `Get` of each dependency, which must succeed.
  pub get_deps : (BuildId → Option OsError) → List BuildId → Cache Tree → Outcome (Cache Tree)
  get_deps stat [] c = returns c
  get_deps stat (dep ∷ deps) c = dep_next (get_deps stat deps) (get dep (stat dep) c)

  pub unlock_all : List BuildId → Cache Tree → Cache Tree
  unlock_all [] c = c
  unlock_all (dep ∷ deps) c = unlock_all deps (read_unlock dep c)

  -- The loop over the commands. The first that fails ends it, and its output is lost.
  pub run_commands :
      Machine Tree
      → JobContext
      → BuildId
      → List Cmd
      → JobResult
      → Cache Tree
      → Outcome ((JobResult × Option Text) × Cache Tree)
  run_commands machine ctx id [] res c = returns ((res, none), c)
  run_commands machine ctx id (cmd ∷ cmds) res c = elim (machine.render cmd ctx) [
    | none ↦ panics
    | some cmd' ↦
        let (code, p) = execute_command machine cmd' in
        let c' = work_on id (machine.output cmd') c in
        elim p.error [
          | some msg ↦ returns ((record res { exit_code = code; error = some msg }, some msg), c')
          | none ↦ run_commands machine ctx id cmds (ran res (code, p)) c'
        ]
  ]

  aborted : JobResult → Text → Cache Tree × Result Error (Unit {0}) → Executed Tree
  aborted res msg (c, err e) = ((res, some (abort_failed e)), c)
  aborted res msg (c, ok _) = ((res, some (job_failed msg)), c)

  committed_job : JobResult → Cache Tree × Result Error (Unit {0}) → Executed Tree
  committed_job res (c, err e) = ((res, some (commit_failed e)), c)
  committed_job res (c, ok _) = ((res, none), c)

  -- After the commands: on a failure `abort`, and otherwise the locks of the dependencies and `commit`.
  settle_job :
      Ends Tree → BuildId → List BuildId → (JobResult × Option Text) × Cache Tree → Executed Tree
  settle_job ends id deps ((res, some msg), c) = aborted res msg (abort id ends.removal c)
  settle_job ends id deps ((res, none), c) =
      committed_job res (commit id ends.rename (unlock_all deps c))

  run_created :
      Machine Tree
      → Ends Tree
      → Job
      → Cache Tree × Result Error (Unit {0})
      → Outcome (Executed Tree)
  run_created machine ends job (c, err e) =
      returns ((empty_result job.id, some (create_failed e)), c)
  run_created machine ends job (c, ok _) = get_deps ends.dep_stat job.deps c andthen λ c'.
      run_commands machine (job_context ends job.deps) job.id job.cmds (empty_result job.id) c'
      andthen λ r. returns (settle_job ends job.id job.deps r)

  -- `linked` is how the loop over the source files ended.
  pub execute_job :
      Machine Tree
      → Ends Tree
      → Result LinkError (Unit {0})
      → Job
      → Cache Tree
      → Outcome (Executed Tree)
  execute_job machine ends (err e) job c = returns ((empty_result job.id, some (link_failed e)), c)
  execute_job machine ends (ok _) job c =
      run_created machine ends job (create job.id ends.empty ends.create_stat ends.mkdir c)

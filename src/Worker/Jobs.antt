-- ===== src/Worker/Jobs.antt =====
-- pkg/worker/worker.go: `runJob`, with downloadFiles of download.go and the download of
-- pkg/filecache/client.go.
pub mod Reporting
pub mod Transfer
pub mod Tests
use distbuild.Common.{
  ℕ, ◌≡◌, Bool, true, false, Option, none, some, List, [], ◌∷◌, Dict, lookup, insert, Result, ok,
  err, pos, Outcome, returns, panics, ◌andthen◌,
}
use distbuild.Build.{Text, BuildId, id_discrete}
use distbuild.Api.{JobSpec, JobResult}
use distbuild.Artifact.{OsError, Cache, read_unlock}
use distbuild.Filecache
use distbuild.Filecache.{
  FileError, not_found, exists, write_locked, read_locked, other, Files, Directory, System,
  get_file, write, Response, uploaded, remove_failed, create_failed, close_failed, copy_failed,
}
use distbuild.Worker.State.{WorkerState, add_artifacts, add_job_result}
use distbuild.Worker.Download
use distbuild.Worker.Download.{DownloadError, download_artifacts}
use distbuild.Worker.Execute
use distbuild.Worker.Execute.{Machine, ExecuteError, Executed, LinkError, link_all, execute_job}

-- The reply to `GET /file`. How the copy of a body ends stands in `System`.
pub data FileReply : Type 0 where
  unreachable refused : FileReply
  received : List ℕ → FileReply

pub data FileFailure : Type 0 where
  no_reply bad_status : FileFailure
  not_created unexpected : FileError → FileFailure
  not_stored : Response → FileFailure

stored : Files × Response → Files × Result FileFailure (Unit {0})
stored (c, uploaded) = (c, ok tt)
stored (c, remove_failed e) = (c, err (not_stored (remove_failed e)))
stored (c, create_failed e) = (c, err (not_stored (create_failed e)))
stored (c, close_failed e) = (c, err (not_stored (close_failed e)))
stored (c, copy_failed e) = (c, err (not_stored (copy_failed e)))

-- From the writer on the download goes as an upload does.
store_body :
    BuildId
    → List ℕ
    → System
    → Files × Result FileError (Unit {0})
    → Files × Result FileFailure (Unit {0})
store_body id body sys (c, err e) = (c, err (not_created e))
store_body id body sys (c, ok _) = stored (Filecache.fill id body sys c)

-- `filecache.Client.Download`
pub download_file :
    BuildId → System → FileReply → Files → Outcome (Files × Result FileFailure (Unit {0}))
download_file id sys unreachable c = returns (c, err no_reply)
download_file id sys refused c = returns (c, err bad_status)
download_file id sys (received body) c =
    write id sys c andthen λ r. returns (store_body id body sys r)

-- One source file: it is there, or it is downloaded.
fetch_file :
    BuildId
    → System
    → FileReply
    → Files × Result FileError Directory
    → Outcome (Files × Result FileFailure (Unit {0}))
fetch_file id sys reply (c, ok _) = returns (read_unlock id c, ok tt)
fetch_file id sys reply (c, err not_found) = download_file id sys reply c
fetch_file id sys reply (c, err e) = returns (c, err (unexpected e))

file_next :
    (Files → Outcome (Files × Result FileFailure (Unit {0})))
    → Files × Result FileFailure (Unit {0})
    → Outcome (Files × Result FileFailure (Unit {0}))
file_next rest (c, err e) = returns (c, err e)
file_next rest (c, ok _) = rest c

-- `downloadFiles`
pub download_files :
    (BuildId → System × FileReply)
    → Dict BuildId Text
    → Files
    → Outcome (Files × Result FileFailure (Unit {0}))
download_files ends [] c = returns (c, ok tt)
download_files ends ((id, path) ∷ files) c =
    fetch_file id (ends id).0 (ends id).1 (get_file id (ends id).0.stat c)
    andthen file_next (download_files ends files)

pub data RunError : Type 0 where
  artifacts_missing : DownloadError → RunError
  files_missing : FileFailure → RunError
  not_executed : ExecuteError → RunError

-- The worker's caches and what it has to report.
pub record Worker (Tree : Type 0) : Type 0 where
  pub state : WorkerState
  pub job_results : Dict BuildId JobResult
  pub artifacts : Cache Tree
  pub files : Files

-- What the world does while a job runs. `say` is the text of an error, and `cancelled` whether the
-- context ends before the result can be added.
pub record World (Tree : Type 0) : Type 0 where
  pub machine : Machine Tree
  pub artifact_ends : BuildId → Download.Ends Tree
  pub file_ends : BuildId → System × FileReply
  pub link_ends : BuildId → Option OsError × Option OsError
  pub execute_ends : Execute.Ends Tree
  pub say : RunError → Text
  pub cancelled : Bool

-- A result without output, for a job that was not run.
pub failed_result : BuildId → Text → JobResult
failed_result id e = record { id = id; stdout = []; stderr = []; exit_code = pos 0; error = some e }

module _ {Tree : Type 0} where
  -- The deferred `addJobResult`.
  reports : World Tree → JobResult → Worker Tree → Worker Tree
  reports world res w = record w { state = add_job_result world.cancelled res w.state }

  -- A result without an error is kept for the next time.
  executed : World Tree → BuildId → Worker Tree → Executed Tree → Worker Tree
  executed world id w ((res, none), c) =
      reports world res
        (record w { artifacts = c; job_results = insert id_discrete w.job_results id res })
  executed world id w ((res, some e), c) =
      reports world (record res { error = some (world.say (not_executed e)) })
        (record w { artifacts = c })

  execute_linked :
      World Tree
      → BuildId
      → JobSpec
      → Worker Tree
      → Files × Result LinkError (Unit {0})
      → Outcome (Worker Tree)
  execute_linked world id job w (files, linked) =
      execute_job world.machine world.execute_ends linked job.job w.artifacts andthen λ r.
      returns (executed world id (record w { files = files }) r)

  with_files :
      World Tree
      → BuildId
      → JobSpec
      → Worker Tree
      → Files × Result FileFailure (Unit {0})
      → Outcome (Worker Tree)
  with_files world id job w (files, err e) =
      returns (
        reports world (failed_result id (world.say (files_missing e))) (record w { files = files }))
  with_files world id job w (files, ok _) =
      execute_linked world id job (record w { files = files })
        (link_all world.link_ends job.source_files files)

  with_artifacts :
      World Tree
      → BuildId
      → JobSpec
      → Worker Tree
      → (Cache Tree × Result DownloadError (Unit {0})) × List BuildId
      → Outcome (Worker Tree)
  with_artifacts world id job w ((c, err e), ids) = returns (
      reports world (failed_result id (world.say (artifacts_missing e)))
        (record w { artifacts = c; state = add_artifacts world.cancelled ids w.state }))
  with_artifacts world id job w ((c, ok _), ids) =
      let w' = record w { artifacts = c; state = add_artifacts world.cancelled ids w.state } in
      download_files world.file_ends job.source_files w.files andthen with_files world id job w'

  -- `runJob`
  pub run_job : World Tree → BuildId → JobSpec → Worker Tree → Outcome (Worker Tree)
  run_job world id job w = elim (lookup id_discrete w.job_results id) [
    | some res ↦ returns (reports world res w)
    | none ↦
        with_artifacts world id job w
          (download_artifacts world.artifact_ends job.artifacts w.artifacts)
  ]

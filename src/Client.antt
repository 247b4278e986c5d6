-- ===== src/Client.antt =====
-- pkg/client/build.go: the checks of the missing files and the loop that listens to the build.
pub mod Listened
pub mod Uploads
pub mod Building
pub mod Tests
use distbuild.Common.{
  ℕ, ◌≡◌, Option, none, some, List, [], ◌∷◌, ◌++◌, Dict, lookup, Result, ok, err, Outcome, returns,
  blocks, ◌andthen◌, ℤ,
}
use distbuild.Build.{Text, BuildId, id_discrete, Graph}
use distbuild.Api.{JobResult, StatusUpdate}

-- The calls of the `BuildListener`.
pub data Heard : Type 0 where
  job_failed : BuildId → ℤ → Text → Heard
  job_finished : BuildId → Heard
  job_stderr job_stdout : BuildId → List ℕ → Heard

-- What `statusReader.Next` gives, unless the context ends first.
pub data Next : Type 0 where
  update : StatusUpdate → Next
  end_of_file cancelled : Next
  broken : Text → Next

pub data ListenError : Type 0 where
  finished context_done : ListenError
  no_update build_failed listener_failed : Text → ListenError

module _ (listener : Heard → Option Text) where
  -- A call of the listener, whose error ends the loop.
  call :
      Heard
      → List Heard
      → (List Heard → List Heard × Result ListenError (Unit {0}))
      → List Heard × Result ListenError (Unit {0})
  call h heard next = elim (listener h) [
    | some e ↦ (heard ++ h ∷ [], err (listener_failed e))
    | none ↦ next (heard ++ h ∷ [])
  ]

  first_call : JobResult → Option Text → Heard
  first_call job none = job_finished job.id
  first_call job (some e) = job_failed job.id job.exit_code e

  pub job_done : JobResult → List Heard → List Heard × Result ListenError (Unit {0})
  job_done job heard = call (first_call job job.error) heard λ heard.
      call (job_stderr job.id job.stderr) heard
        λ heard. call (job_stdout job.id job.stdout) heard λ heard. (heard, ok tt)

  -- A failed build counts only where no job has finished in the same update.
  on_update : StatusUpdate → List Heard → List Heard × Result ListenError (Unit {0})
  on_update u heard = elim u.job_finished [
    | some job ↦ job_done job heard
    | none ↦ elim u.build_failed [
      | some failure ↦ (heard, err (build_failed failure.error))
      | none ↦ (heard, ok tt)
    ]
  ]

  -- `listenBuild`
  pub listen_build : Next → List Heard → List Heard × Result ListenError (Unit {0})
  listen_build (update u) heard = on_update u heard
  listen_build end_of_file heard = (heard, err finished)
  listen_build cancelled heard = (heard, err context_done)
  listen_build (broken e) heard = (heard, err (no_update e))

  -- The error of the loop: none at the end of the stream.
  build_result : ListenError → Option ListenError
  build_result finished = none
  build_result context_done = some context_done
  build_result (no_update e) = some (no_update e)
  build_result (build_failed e) = some (build_failed e)
  build_result (listener_failed e) = some (listener_failed e)

  after_update :
      (List Heard → Outcome (List Heard × Option ListenError))
      → List Heard × Result ListenError (Unit {0})
      → Outcome (List Heard × Option ListenError)
  after_update rest (heard, ok _) = rest heard
  after_update rest (heard, err e) = returns (heard, build_result e)

  -- The loop of `Build`; without another message it waits.
  pub listen_all : List Next → List Heard → Outcome (List Heard × Option ListenError)
  listen_all [] heard = blocks
  listen_all (n ∷ ns) heard = after_update (listen_all ns) (listen_build n heard)

-- What is found where a file is to be uploaded.
pub data File : Type 0 where
  missing not_regular regular : File

pub data UploadError : Type 0 where
  not_in_graph stat_failed irregular : BuildId → UploadError

file_error : BuildId → Option File → Result UploadError (Unit {0})
file_error id none = err (not_in_graph id)
file_error id (some missing) = err (stat_failed id)
file_error id (some not_regular) = err (irregular id)
file_error id (some regular) = ok tt

found_at : (Text → File) → Option Text → Option File
found_at disk none = none
found_at disk (some path) = some (disk path)

upload_next :
    BuildId
    → Result UploadError (List BuildId)
    → Result UploadError (Unit {0})
    → Result UploadError (List BuildId)
upload_next id rest (err e) = err e
upload_next id (err e) (ok _) = err e
upload_next id (ok ids) (ok _) = ok (id ∷ ids)

-- The loop over the missing files: the uploads that it starts, when no file stands in the way.
pub start_uploads : (Text → File) → Graph → List BuildId → Result UploadError (List BuildId)
start_uploads disk g [] = ok []
start_uploads disk g (id ∷ ids) =
    upload_next id (start_uploads disk g ids)
      (file_error id (found_at disk (lookup id_discrete g.source_files id)))

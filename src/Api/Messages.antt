-- ===== src/Api/Messages.antt =====
-- pkg/api/heartbeat.go and pkg/api/build.go: the messages.
use distbuild.Common.{ℕ, ℤ, Option, List, Dict}
use distbuild.Build.{BuildId, Job, Graph}
use distbuild.Build.Defs.{Text}

abbrev pub WorkerId : Type 0
WorkerId = Text

-- `error` is none where the job succeeded.
pub record JobResult : Type 0 where
  pub id : BuildId
  pub stdout : List ℕ
  pub stderr : List ℕ
  pub exit_code : ℤ
  pub error : Option Text

pub record HeartbeatRequest : Type 0 where
  pub worker_id : WorkerId
  pub free_slots : ℤ
  pub finished_job : List JobResult
  pub added_artifacts : List BuildId

-- The Go struct embeds the job.
pub record JobSpec : Type 0 where
  pub source_files : Dict BuildId Text
  pub artifacts : Dict BuildId WorkerId
  pub job : Job
  pub open job use *

pub record HeartbeatResponse : Type 0 where
  pub jobs_to_run : Dict BuildId JobSpec

pub record BuildRequest : Type 0 where
  pub graph : Graph

pub record BuildStarted : Type 0 where
  pub id : BuildId
  pub missing_files : List BuildId

pub record BuildFailed : Type 0 where
  pub error : Text

-- Three pointers, each of which may be nil.
pub record StatusUpdate : Type 0 where
  pub job_finished : Option JobResult
  pub build_failed : Option BuildFailed
  pub build_finished : Option (Unit {0})

pub record SignalRequest : Type 0 where
  pub upload_done : Option (Unit {0})

-- ===== src/Worker/State.antt =====
-- pkg/worker/state.go: what a worker has to report. `mu` makes each addition one step, and the
-- worker's loop pulls only while no job runs.
pub mod Reports
pub mod Tests
use distbuild.Common.{ℕ, ◌≡◌, Bool, true, false, List, [], ◌∷◌, ◌++◌, ℤ, pos, if◌then◌else◌}
use distbuild.Build.{BuildId}
use distbuild.Api.{WorkerId, JobResult, HeartbeatRequest}

pub record WorkerState : Type 0 where
  pub added_artifacts : List BuildId
  pub finished_job : List JobResult
  pub free_slots : ℤ

-- `cpus` is `runtime.NumCPU()`.
unfoldable pub new_worker_state : ℕ → WorkerState
new_worker_state cpus = record { added_artifacts = []; finished_job = []; free_slots = pos cpus }

unfoldable pub pull : WorkerId → WorkerState → HeartbeatRequest × WorkerState
pull w s = (
  record {
    worker_id = w;
    free_slots = s.free_slots;
    finished_job = s.finished_job;
    added_artifacts = s.added_artifacts;
  },
  record s { added_artifacts = []; finished_job = [] },
)

-- `cancelled` says that the `select` takes `ctx.Done()` and not the lock.
unfoldable pub add_artifacts : Bool → List BuildId → WorkerState → WorkerState
add_artifacts cancelled ids s =
    if cancelled then s else record s { added_artifacts = s.added_artifacts ++ ids }

unfoldable pub add_job_result : Bool → JobResult → WorkerState → WorkerState
add_job_result cancelled res s =
    if cancelled then s else record s { finished_job = s.finished_job ++ res ∷ [] }

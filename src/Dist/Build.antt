-- ===== src/Dist/Build.antt =====
-- pkg/dist/build_service.go: `StartBuild`, and the loop over the jobs in `SignalBuild`. The goroutines
-- that the loop starts are in Dist/Reports, and only read the pending jobs.
pub mod Stored
pub mod Ready
pub mod Waits
pub mod Calm
pub mod Gathered
pub mod Course
pub mod Tests
use distbuild.Common.{
  ℕ, zero, suc, ◌≡◌, Bool, true, false, Option, none, some, List, [], ◌∷◌, ◌++◌, map, length,
  get_elem?, Dict, lookup, insert, if◌then◌else◌, Result, ok, err, Outcome, returns, panics, blocks,
  ◌andthen◌, replicate,
}
use distbuild.Build.{Text, Job, Graph, BuildId, id_discrete, text_discrete}
use distbuild.Build.TopSort.{top_sort}
use distbuild.Api.{WorkerId, JobSpec, BuildStarted}
use distbuild.Scheduler.{Ref, PendingJob, Scheduler, Call, run, locate_artifact, schedule_job}

-- `fileNameToID`: for two files of one name the last one counts.
name_to_id : Dict BuildId Text → Dict Text BuildId → Dict Text BuildId
name_to_id [] names = names
name_to_id ((id, path) ∷ files) names = name_to_id files (insert text_discrete names path id)

pub file_name_to_id : Graph → Dict Text BuildId
file_name_to_id g = name_to_id g.source_files []

-- The message with which the coordinator begins.
unfoldable pub started : BuildId → Graph → BuildStarted
started id g = record { id = id; missing_files = map (λ (f : BuildId × Text). f.0) g.source_files }

-- An input that is not a source file is looked up as the zero identifier.
zero_id_or : Option BuildId → BuildId
zero_id_or none = replicate 20 0
zero_id_or (some id) = id

sources_from : Dict Text BuildId → List Text → Dict BuildId Text → Dict BuildId Text
sources_from names [] files = files
sources_from names (input ∷ inputs) files =
    sources_from names inputs
      (insert id_discrete files (zero_id_or (lookup text_discrete names input)) input)

pub job_source_files : Dict Text BuildId → Job → Dict BuildId Text
job_source_files names job = sources_from names job.inputs []

-- The part of `coordinatorCore` that holds the builds. A build that is stored can be signalled.
pub record Core : Type 0 where
  pub build_source_files : Dict BuildId (List (Dict BuildId Text))
  pub build_graph : Dict BuildId (List Job)

-- What `hb.Happen` does for the build.
store : BuildId → List Job → List (Dict BuildId Text) → Core → Core
store id jobs files c = record {
  build_source_files = insert id_discrete c.build_source_files id files;
  build_graph = insert id_discrete c.build_graph id jobs;
}

-- `id` is the new identifier. Without the client's connection nothing is stored; the sort never fails.
pub start_build : BuildId → Bool → Graph → Core → BuildStarted × Result (Unit {0}) Core
start_build id send_fails g c = (
  started id g,
  if send_fails then err tt else elim (top_sort g.jobs) [
    | none ↦ err tt
    | some jobs ↦ ok (store id jobs (map (job_source_files (file_name_to_id g)) jobs) c)
  ],
)

-- What happens around the wait for one dependency: the calls of others before the wait ends and
-- between its end and `LocateArtifact`, whether the context is done, whether `select` prefers it,
-- and the random number.
pub record Moment : Type 0 where
  pub others : List Call
  pub between : List Call
  pub done : Bool
  pub prefers_done : Bool
  pub random : ℕ

-- The moments for each dependency of each job, and the calls of others before each job is scheduled.
pub record Surroundings : Type 0 where
  pub dep : ℕ → ℕ → Moment
  pub before : ℕ → List Call

unfoldable pub meanwhile : List Call → Scheduler → Outcome Scheduler
meanwhile cs s = run cs s andthen λ (_, s'). returns s'

unfoldable pub is_finished : Option PendingJob → Bool
is_finished none = false
is_finished (some p) = p.finished

-- The `select` over `ctx.Done()` and `depPending.Finished`. It takes a case that is ready.
pub wait_for : Moment → Ref → Scheduler → Outcome (Result (Unit {0}) Scheduler)
wait_for m ref s = meanwhile m.others s andthen λ s'.
    if is_finished (get_elem? s'.pending ref)
    then (if m.done
        then (if m.prefers_done then returns (err tt) else returns (ok s'))
        else returns (ok s'))
    else (if m.done then returns (err tt) else blocks)

-- `depWorkerID, exist := c.sched.LocateArtifact(dep)`, which must exist.
pub located : Moment → BuildId → Scheduler → Outcome (WorkerId × Scheduler)
located m dep s = meanwhile m.between s andthen λ s'.
    locate_artifact m.random dep s' andthen λ found. elim found [
      | none ↦ panics
      | some w ↦ returns (w, s')
    ]

-- The loop over the dependencies of one job.
pub gather :
    (ℕ → Moment)
    → ℕ
    → Dict BuildId Ref
    → List BuildId
    → Dict BuildId WorkerId
    → Scheduler
    → Outcome (Result (Unit {0}) (Dict BuildId WorkerId × Scheduler))
gather at k job_pending [] artifacts s = returns (ok (artifacts, s))
gather at k job_pending (dep ∷ deps) artifacts s = elim (lookup id_discrete job_pending dep) [
  | none ↦ panics
  | some ref ↦ wait_for (at k) ref s andthen λ r. elim r [
    | err e ↦ returns (err e)
    | ok s' ↦ located (at k) dep s' andthen λ (w, s'').
        gather at (suc k) job_pending deps (insert id_discrete artifacts dep w) s''
  ]
]

-- One round of the loop over the jobs: the dependencies, then `ScheduleJob`.
pub schedule_one :
    Surroundings
    → ℕ
    → Job
    → Dict BuildId Text
    → Dict BuildId Ref
    → Scheduler
    → Outcome (Result (Unit {0}) (Dict BuildId Ref × Scheduler))
schedule_one around i job files job_pending s =
    gather (around.dep i) 0 job_pending job.deps [] s andthen λ r. elim r [
      | err e ↦ returns (err e)
      | ok (artifacts, s') ↦ meanwhile (around.before i) s' andthen λ s''.
          schedule_job (record { source_files = files; artifacts = artifacts; job = job }) s''
          andthen λ (ref, t). returns (ok (insert id_discrete job_pending job.id ref, t))
    ]

-- The loop over the jobs. `sourceFiles[i]` panics out of range.
pub schedule_all :
    Surroundings
    → ℕ
    → List Job
    → List (Dict BuildId Text)
    → Dict BuildId Ref
    → Scheduler
    → Outcome (Result (Unit {0}) (Dict BuildId Ref × Scheduler))
schedule_all around i [] files job_pending s = returns (ok (job_pending, s))
schedule_all around i (job ∷ jobs) [] job_pending s = panics
schedule_all around i (job ∷ jobs) (f ∷ files) job_pending s =
    schedule_one around i job f job_pending s andthen λ r. elim r [
      | err e ↦ returns (err e)
      | ok (job_pending', s') ↦ schedule_all around (suc i) jobs files job_pending' s'
    ]

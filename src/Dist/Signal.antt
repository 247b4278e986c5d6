-- ===== src/Dist/Signal.antt =====
-- pkg/dist/build_service.go: `SignalBuild` as one call. Its loop is in Dist/Build and its goroutines in
-- Dist/Reports. They only read what the loop and the workers have done, and the call does not read what
-- they do before `wg.Wait`, so their turns stand after the loop here.
pub mod Possible
pub mod Safe
pub mod Ends
pub mod Tests
use distbuild.Common.{
  ℕ, Bool, true, false, Option, none, some, List, [], ◌∷◌, map, length, get_elem?, Dict, lookup,
  insert, if◌then◌else◌, Result, ok, err, Outcome, returns, panics, blocks, ◌andthen◌,
}
use distbuild.Build.{BuildId, Text, Job, id_discrete}
use distbuild.Api.{JobResult, SignalRequest}
use distbuild.Api.Status.{StatusWriter}
use distbuild.Scheduler.{Ref, PendingJob, Scheduler, Call}
use distbuild.Filecache.{Files}
use distbuild.Concurrency.HappensBefore.{before_call}
use distbuild.Dist.Build.{Core, Surroundings, meanwhile, is_finished, schedule_all}
use distbuild.Dist.Reports.{
  Phase, waiting, counted, cancelled, decided, sent, failed, gone, Reports, ReportError, Turn,
  proceed, cancel, take_turns, begin_reports,
}
use distbuild.Dist.Coordinator.{Coordinator}

-- The coordinator with the scheduler and the file cache that its services share.
pub record Site : Type 0 where
  pub coordinator : Coordinator
  pub scheduler : Scheduler
  pub file_cache : Files

pub data SignalError : Type 0 where
  loop_done call_done : SignalError
  not_reported : ReportError → SignalError

-- What others do during the loop and between it and the end of the goroutines, the turns of these,
-- and whether the context is done at the end.
pub record Course : Type 0 where
  pub around : Surroundings
  pub others : List Call
  pub turns : List Turn
  pub done : Bool

-- `pending` as the goroutine of a job has it: scheduling an identifier again gives the same.
pending_of : Dict BuildId Ref → Scheduler → Job → Option PendingJob
pending_of job_pending s job = elim (lookup id_discrete job_pending job.id) [
  | none ↦ none
  | some ref ↦ get_elem? s.pending ref
]

pending_at : Dict BuildId Ref → List Job → Scheduler → ℕ → Option PendingJob
pending_at job_pending jobs s i = elim (get_elem? jobs i) [
  | none ↦ none
  | some job ↦ pending_of job_pending s job
]

result_of : Option PendingJob → Option JobResult
result_of none = none
result_of (some p) = p.result

pub result_at : Dict BuildId Ref → List Job → Scheduler → ℕ → Option JobResult
result_at job_pending jobs s i = result_of (pending_at job_pending jobs s i)

pub has_ended : Dict BuildId Ref → List Job → Scheduler → ℕ → Bool
has_ended job_pending jobs s i = is_finished (pending_at job_pending jobs s i)

source_files_of : Option PendingJob → Dict BuildId Text
source_files_of none = []
source_files_of (some p) = p.job.source_files

-- `pending.Job.SourceFiles` for each job.
source_files : Dict BuildId Ref → Scheduler → List Job → List (Dict BuildId Text)
source_files job_pending s = map (λ job. source_files_of (pending_of job_pending s job))

-- The turns that are taken: a goroutine whose job has not finished waits still.
pub possible : (ℕ → Bool) → List Turn → List Turn
possible ended [] = []
possible ended (proceed i how sys ∷ ts) =
    let rest = possible ended ts in if ended i then proceed i how sys ∷ rest else rest
possible ended (cancel i ∷ ts) = cancel i ∷ possible ended ts

pub is_over : Phase → Bool
is_over waiting = false
is_over counted = false
is_over (decided last) = false
is_over (sent last) = false
is_over cancelled = true
is_over (failed last) = true
is_over (gone last) = true

-- `wg.Wait`
pub all_over : List Phase → Bool
all_over [] = true
all_over (p ∷ ps) = let rest = all_over ps in if is_over p then rest else false

-- After the wait: the first error of a goroutine, or that of the context.
answer : List ReportError → Bool → Site → Result SignalError Site
answer (e ∷ errs) done site = err (not_reported e)
answer [] done site = if done then err call_done else ok site

pub leave : BuildId → Scheduler → Reports → Site → Site
leave id s r site = record {
  coordinator = record site.coordinator {
    build_status_writer = insert id_discrete site.coordinator.build_status_writer id r.writer;
  };
  scheduler = s;
  file_cache = r.files;
}

-- The state after an error is not given: the goroutines may still run then.
module _ (course : Course) (id : BuildId) where
  finish_signal : Site → Scheduler → Reports → Outcome (Result SignalError Site)
  finish_signal site s r =
      if all_over r.phases then returns (answer r.errs course.done (leave id s r site)) else blocks

  report_all :
      List Job
      → StatusWriter
      → Site
      → Dict BuildId Ref
      → Scheduler
      → Outcome (Result SignalError Site)
  report_all jobs w site job_pending s =
      take_turns (source_files job_pending s jobs) (result_at job_pending jobs s)
        (possible (has_ended job_pending jobs s) course.turns)
        (begin_reports (length jobs) w site.file_cache)
      andthen λ r. finish_signal site s r

  run_build :
      List Job → List (Dict BuildId Text) → StatusWriter → Site → Outcome (Result SignalError Site)
  run_build jobs files w site =
      schedule_all course.around 0 jobs files [] site.scheduler andthen λ r. elim r [
        | err e ↦ returns (err loop_done)
        | ok (job_pending, s) ↦
            meanwhile course.others s andthen λ t. report_all jobs w site job_pending t
      ]

  -- The three loads; without one of them it panics.
  load_build : Site → Outcome (Result SignalError Site)
  load_build site =
      let c = site.coordinator in
      elim (lookup id_discrete c.core.build_source_files id) [
        | none ↦ panics
        | some files ↦ elim (lookup id_discrete c.core.build_graph id) [
          | none ↦ panics
          | some jobs ↦ elim (lookup id_discrete c.build_status_writer id) [
            | none ↦ panics
            | some w ↦ run_build jobs files w site
          ]
        ]
      ]

  wants : Option (Unit {0}) → Site → Outcome (Result SignalError Site)
  wants none site = returns (ok site)
  wants (some _) site = load_build site

  pub signal_build : SignalRequest → Site → Outcome (Result SignalError Site)
  signal_build req site = before_call id_discrete id site.coordinator.hb andthen λ hb.
      wants req.upload_done (record site { coordinator = record site.coordinator { hb = hb } })

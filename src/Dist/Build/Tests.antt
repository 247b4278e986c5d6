-- ===== src/Dist/Build/Tests.antt =====
-- A build of two jobs, the second of which needs the first.
use distbuild.Common.{ℕ, ◌≡◌, ◌≢◌, false, some, [], ◌∷◌, map, Dict, ok, returns, insert, arith}
use distbuild.Build.{BuildId, Graph}
use distbuild.Build.Id.Tests.{id_of}
use distbuild.Build.TopSort.Tests.{job_of, chain}
use distbuild.Scheduler.{Ref, complete, report, pick, from_queue, new_scheduler}
use distbuild.Scheduler.Invariant.{Inv-new}
use distbuild.Scheduler.Prompt.{new_scheduler-Prompt}
use distbuild.Scheduler.Artifacts.{reported}
use distbuild.Scheduler.Tests.{
  run_nothing, result, queued, schedule_job-first, done_first, to_done, run-to_done, worker,
  half_complete,
}
use distbuild.Dist.Build.{
  schedule_one, sources_from, Moment, Surroundings, meanwhile, gather, schedule_all,
  job_source_files, file_name_to_id,
}
use distbuild.Dist.Build.Ready.{Sound, Ready}
use distbuild.Dist.Build.Calm.{IsTidy}

abbrev pub graph : Graph
graph = record { source_files = []; jobs = chain }

-- Between the wait for the first job and the search for its artifact the worker reports it.
abbrev works : ℕ → Moment
works n = record {
  others = pick false from_queue ∷ complete (id_of n) (some (result n)) ∷ [];
  between = report (b'w' ∷ []) (id_of n) ∷ [];
  done = false;
  prefers_done = false;
  random = 0;
}

abbrev pub around : Surroundings
around = record { dep = λ i k. works i; before = λ i. [] }

pub around-IsTidy : IsTidy around
around-IsTidy = record { waits = λ i k. (one_reported i, tt); before = λ i. tt }
  where
    one_reported : (i : ℕ) → reported (id_of i) (report (b'w' ∷ []) (id_of i) ∷ []) ≢ []
    one_reported i e = absurd (ground (arith, e))

pub new_scheduler-Sound : Sound new_scheduler
new_scheduler-Sound = (Inv-new, new_scheduler-Prompt.0)

-- While the loop waits for job 1, it is scheduled, handed out and completed.
abbrev moment : ℕ → Moment
moment k = record {
  others = half_complete;
  between = report (worker 0) (id_of 1) ∷ [];
  done = false;
  prefers_done = false;
  random = 0;
}

abbrev pub one_pending : Dict BuildId Ref
one_pending = (id_of 1, 0) ∷ []

-- A build of one job.
abbrev pub lone : Graph
lone = record { source_files = []; jobs = job_of 1 [] ∷ [] }

pub loop_lone :
    schedule_all around 0 lone.jobs
      (map (job_source_files (file_name_to_id lone)) lone.jobs)
      []
      new_scheduler
    ≡ returns (ok (one_pending, queued))
unfolding schedule_all schedule_one gather meanwhile job_source_files sources_from insert
loop_lone = ground (arith, run_nothing, schedule_job-first)

pub meanwhile-to_done : meanwhile to_done queued ≡ returns done_first
unfolding meanwhile
meanwhile-to_done = ground (arith, run-to_done)

-- ===== src/Dist/Heartbeat/Tests.antt =====
-- Heartbeats of a worker with one free slot.
use distbuild.Common.{◌≡◌, ◌⊎◌, refl, false, [], ◌∷◌, All, Dict, pos, returns, blocks}
use distbuild.Build.{BuildId}
use distbuild.Build.Id.Tests.{id_of}
use distbuild.Api.{JobSpec, JobResult, HeartbeatRequest}
use distbuild.Scheduler.{Scheduler, from_queue, new_scheduler}
use distbuild.Scheduler.Invariant.{Inv-new}
use distbuild.Scheduler.Prompt.{new_scheduler-Prompt}
use distbuild.Scheduler.Tests.{
  worker, spec, result, finished_job, half_complete, half_way, run-half_complete,
}
use distbuild.Dist.Build.Ready.{Later, run-Sound}
use distbuild.Dist.Heartbeat.{Surroundings, Turn, finish_jobs}
use distbuild.Dist.Heartbeat.Reported.{Finished, finish_jobs-Finished}

abbrev quiet : Turn
quiet = record { others = []; done = false; select = from_queue }

abbrev around : Surroundings
around = record { before = λ i. []; within = λ i. []; first = quiet; try = λ i k. quiet }

abbrev request : HeartbeatRequest
request = record {
  worker_id = worker 0;
  free_slots = pos 1;
  finished_job = [];
  added_artifacts = [];
}

abbrev given : Dict BuildId JobSpec
given = (id_of 1, spec 1) ∷ []

finish_jobs-Finished_example :
    (finish_jobs around 0 (worker 0) (result 1 ∷ []) half_way ≡ blocks)
    ⊎ ((t : Scheduler) × (finish_jobs around 0 (worker 0) (result 1 ∷ []) half_way ≡ returns t)
        × Later half_way t
        × All (λ (j : JobResult). Finished t j.id) (result 1 ∷ []))
finish_jobs-Finished_example =
    finish_jobs-Finished around 0 (worker 0) (result 1 ∷ []) half_way
      (run-Sound half_complete new_scheduler half_way (Inv-new, new_scheduler-Prompt.0)
        run-half_complete)
      (record { ref = 0; job = finished_job; at = refl; own = refl; holds = tt }, tt)

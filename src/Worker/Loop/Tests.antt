-- ===== src/Worker/Loop/Tests.antt =====
-- A worker that gets one job and is stopped then.
use distbuild.Common.{ℕ, ◌≡◌, refl, false, true, [], ◌∷◌, ◌++◌, ok, returns, ◌andthen◌, ap}
use distbuild.Build.Id.Tests.{id_of}
use distbuild.Artifact.{new_cache}
use distbuild.Scheduler.{bare_spec}
use distbuild.Api.{HeartbeatRequest}
use distbuild.Worker.State.{pull, new_worker_state}
use distbuild.Worker.Jobs.Tests.{worker, worker_after, world, kept-Own, run_job-kept}
use distbuild.Worker.Loop.{Cycle, context_done, run_jobs, run}
use distbuild.Worker.Loop.Answers.{accounted, given, run_answers}

abbrev one_job : Cycle ℕ
one_job = record {
  done = false;
  reply = ok (record { jobs_to_run = (id_of 1, bare_spec (id_of 1)) ∷ [] });
  worlds = λ id. world;
}

abbrev stopped : Cycle ℕ
stopped = record one_job { done = true }

abbrev first_request : HeartbeatRequest
unfolding pull new_worker_state new_cache
first_request = (pull (b'w' ∷ []) worker.state).0

runs :
    run (b'w' ∷ []) (one_job ∷ stopped ∷ []) [] worker
    ≡ returns ((worker_after, first_request ∷ []), context_done)
unfolding run run_jobs pull new_worker_state new_cache
runs =
    ap
      (λ o.
        o
        andthen run_jobs (λ id. world) []
        andthen run (b'w' ∷ []) (stopped ∷ []) (first_request ∷ []))
      run_job-kept

run_answers_example :
    accounted (worker_after, first_request ∷ [])
    ≡ accounted (worker, []) ++ given (one_job ∷ stopped ∷ [])
unfolding new_worker_state new_cache
run_answers_example =
    run_answers (b'w' ∷ []) (one_job ∷ stopped ∷ []) [] worker (worker_after, first_request ∷ [])
      context_done
      (
        record { goes = λ id. refl; named = (refl, tt) },
        (record { goes = λ id. refl; named = (refl, tt) }, tt),
      )
      kept-Own runs

given_one : given (one_job ∷ stopped ∷ []) ≡ id_of 1 ∷ []
unfolding given
given_one = refl

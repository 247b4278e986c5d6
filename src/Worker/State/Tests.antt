-- ===== src/Worker/State/Tests.antt =====
-- A short life of a worker's state.
use distbuild.Common.{ℕ, ◌≡◌, refl, true, false, none, List, [], ◌∷◌, pos}
use distbuild.Build.Id.Tests.{id_of}
use distbuild.Api.{JobResult}
use distbuild.Worker.State.{new_worker_state, pull, add_artifacts, add_job_result}
use distbuild.Worker.State.Reports.{Step, adds_result, adds_artifacts, pulls, run, results_sent}

abbrev result : ℕ → JobResult
result b = record { id = id_of b; stdout = []; stderr = []; exit_code = pos 0; error = none }

abbrev steps : List Step
steps =
    adds_result false (result 1)
    ∷ pulls
    ∷ adds_result true (result 2)
    ∷ adds_artifacts false (id_of 5 ∷ [])
    ∷ adds_result false (result 3)
    ∷ pulls
    ∷ adds_result false (result 4)
    ∷ []

sent : results_sent (run (b'w' ∷ []) steps (new_worker_state 2)).0 ≡ result 1 ∷ result 3 ∷ []
unfolding run pull add_job_result add_artifacts new_worker_state
sent = refl

-- ===== src/Worker/State/Reports.antt =====
-- Every result and artifact that is added is reported once, in its order.
use mathlib.Core.List.{append-nil, append_assoc}
use distbuild.Common.{◌≡◌, sym, ap, ◌∙◌, Bool, true, false, List, [], ◌∷◌, ◌++◌, if◌then◌else◌}
use distbuild.Build.{BuildId}
use distbuild.Api.{WorkerId, JobResult, HeartbeatRequest}
use distbuild.Worker.State.{WorkerState, pull, add_artifacts, add_job_result}

pub data Step : Type 0 where
  adds_result : Bool → JobResult → Step
  adds_artifacts : Bool → List BuildId → Step
  pulls : Step

-- The requests that the pulls give, and the state at the end.
unfoldable pub run : WorkerId → List Step → WorkerState → List HeartbeatRequest × WorkerState
run w [] s = ([], s)
run w (adds_result cancelled res ∷ steps) s = run w steps (add_job_result cancelled res s)
run w (adds_artifacts cancelled ids ∷ steps) s = run w steps (add_artifacts cancelled ids s)
run w (pulls ∷ steps) s =
    let (request, s') = pull w s in
    let (requests, s'') = run w steps s' in (request ∷ requests, s'')

-- What was added without a cancelled context.
abbrev pub results_added : List Step → List JobResult
results_added [] = []
results_added (adds_result cancelled res ∷ steps) =
    if cancelled then results_added steps else res ∷ results_added steps
results_added (adds_artifacts cancelled ids ∷ steps) = results_added steps
results_added (pulls ∷ steps) = results_added steps

abbrev pub artifacts_added : List Step → List BuildId
artifacts_added [] = []
artifacts_added (adds_result cancelled res ∷ steps) = artifacts_added steps
artifacts_added (adds_artifacts cancelled ids ∷ steps) =
    if cancelled then artifacts_added steps else ids ++ artifacts_added steps
artifacts_added (pulls ∷ steps) = artifacts_added steps

abbrev pub results_sent : List HeartbeatRequest → List JobResult
results_sent [] = []
results_sent (r ∷ rs) = r.finished_job ++ results_sent rs

abbrev pub artifacts_sent : List HeartbeatRequest → List BuildId
artifacts_sent [] = []
artifacts_sent (r ∷ rs) = r.added_artifacts ++ artifacts_sent rs

-- Through every history of additions and pulls, what the requests carry and then what is still held
-- is what was held at first and then what was added, the results and the artifacts each in their
-- order, nothing lost and nothing twice.
pub run-conserves :
    (w : WorkerId) (steps : List Step) (s : WorkerState)
    → (results_sent (run w steps s).0 ++ (run w steps s).1.finished_job
        ≡ s.finished_job ++ results_added steps)
      × (artifacts_sent (run w steps s).0 ++ (run w steps s).1.added_artifacts
          ≡ s.added_artifacts ++ artifacts_added steps)
unfolding run pull add_job_result add_artifacts
run-conserves w [] s = (sym (append-nil s.finished_job), sym (append-nil s.added_artifacts))
run-conserves w (adds_result true res ∷ steps) s = run-conserves w steps s
run-conserves w (adds_result false res ∷ steps) s =
    let (r, a) = run-conserves w steps (add_job_result false res s) in
    (r ∙ append_assoc s.finished_job (res ∷ []) (results_added steps), a)
run-conserves w (adds_artifacts true ids ∷ steps) s = run-conserves w steps s
run-conserves w (adds_artifacts false ids ∷ steps) s =
    let (r, a) = run-conserves w steps (add_artifacts false ids s) in
    (r, a ∙ append_assoc s.added_artifacts ids (artifacts_added steps))
run-conserves w (pulls ∷ steps) s =
    let (r, a) = run-conserves w steps (pull w s).1 in
    (
      append_assoc s.finished_job _ _ ∙ ap (◌++◌ s.finished_job) r,
      append_assoc s.added_artifacts _ _ ∙ ap (◌++◌ s.added_artifacts) a,
    )

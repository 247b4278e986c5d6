-- ===== src/Dist/Reports/Tests.antt =====
-- Runs of the goroutines of pkg/dist/build_service.go, and the theorems at concrete runs.
use distbuild.Common.{
  ℕ, zero, suc, ◌≤◌, ◌<◌, ◌≡◌, refl, true, false, Option, none, some, List, [], ◌∷◌, replicate,
  arith, pos, returns, panics,
}
use distbuild.Build.{BuildId}
use distbuild.Api.{JobResult}
use distbuild.Api.Status.{Frame, begun, changed, sends, StatusWriter, updated}
use distbuild.Filecache.{Files, System}
use distbuild.Artifact.{removed, new_cache}
use distbuild.Dist.Reports.{
  sent, update_for, Reports, Turn, proceed, decide, report, after_send, advance, take_turn,
  take_turns, begin_reports,
}
use distbuild.Dist.Reports.Counting.{tally, is_finish}
use distbuild.Dist.Reports.Once.{Going, reports_finish_once}

abbrev job_a : JobResult
job_a = record { id = replicate 20 1; stdout = []; stderr = []; exit_code = pos 0; error = none }

abbrev job_b : JobResult
job_b = record { id = replicate 20 2; stdout = []; stderr = []; exit_code = pos 1; error = some [] }

abbrev results : ℕ → Option JobResult
results zero = some job_a
results (suc zero) = some job_b
results (suc (suc n)) = none

abbrev hello : Frame
hello = begun (record { id = replicate 20 3; missing_files = [] })

abbrev stream : StatusWriter
stream = record { start_msg_send = true; done = false; frames = hello ∷ [] }

-- No source file is left to remove.
abbrev pub no_files : Files
unfolding new_cache
no_files = new_cache []

abbrev works : BuildId → System
works id = record {
  stat = none;
  mkdir_all = none;
  removal = removed;
  rename = none;
  create_file = none;
  copy = none;
  close = none;
}

abbrev pub go : ℕ → Turn
go i = proceed i sends works

-- The first goroutine says that the build has finished before the second has sent its update, which
-- comes last on a stream that is closed by then.
finished_overtakes :
    take_turns [] results
      (go 0 ∷ go 1 ∷ go 0 ∷ go 0 ∷ go 1 ∷ go 1 ∷ [])
      (begin_reports 2 stream no_files)
    ≡ returns (record (begin_reports 2 stream no_files) {
      phases = sent true ∷ sent false ∷ [];
      writer = record stream {
        done = true;
        frames = hello ∷ changed (update_for job_a true) ∷ changed (update_for job_b false) ∷ [];
      };
    })
unfolding begin_reports take_turns take_turn advance decide report after_send updated
finished_overtakes = refl

-- A job whose result is nil.
no_result : take_turns [] (λ i. none) (go 0 ∷ go 0 ∷ []) (begin_reports 1 stream no_files) ≡ panics
unfolding begin_reports take_turns take_turn advance decide
no_result = refl

all_results : (i : ℕ) → i < 2 → (job : JobResult) × (results i ≡ some job)
all_results zero h = (job_a, refl)
all_results (suc zero) h = (job_b, refl)
all_results (suc (suc i)) h = absurd (omega arith)

going : Going stream
unfolding tally is_finish
going = record { began = refl; still_open = refl; unfinished = refl }

abbrev turns : List Turn
turns = go 0 ∷ go 1 ∷ go 1 ∷ go 0 ∷ go 0 ∷ go 1 ∷ go 0 ∷ go 1 ∷ []

reports_finish_once_example :
    (r : Reports) × (take_turns [] results turns (begin_reports 2 stream no_files) ≡ returns r)
    × (tally is_finish r.writer.frames ≤ 1)
reports_finish_once_example =
    reports_finish_once [] results 2 stream no_files turns all_results going

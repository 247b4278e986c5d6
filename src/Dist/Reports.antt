-- ===== src/Dist/Reports.antt =====
-- pkg/dist/build_service.go: the goroutines of `SignalBuild`, one for each job, that wait for the job,
-- send its update and remove its source files. The scheduler of the runtime chooses whose turn it is.
pub mod Counting
pub mod Balance
pub mod Turns
pub mod Once
pub mod Steps
pub mod Exact
pub mod Ends
pub mod Tests
use distbuild.Common.{
  ℕ, ◌+◌, Bool, true, false, Option, none, some, List, [], ◌∷◌, ◌++◌, ◌==◌, length, get_elem?, set,
  Dict, if◌then◌else◌, Result, ok, err, Outcome, returns, panics, ◌andthen◌, replicate,
}
use distbuild.Build.{BuildId, Text}
use distbuild.Api.{JobResult, StatusUpdate, BuildFailed}
use distbuild.Api.Status.{Sending, StatusError, StatusWriter, Status, updated}
use distbuild.Filecache
use distbuild.Filecache.{Files, System, FileError}

-- `removeSourceFiles`: the first error ends it.
pub remove_source_files :
    (BuildId → System) → Dict BuildId Text → Files → Files × Result FileError (Unit {0})
remove_source_files sys [] c = (c, ok tt)
remove_source_files sys ((id, path) ∷ files) c =
    let (c', r) = Filecache.remove id (sys id) c in
    elim r [ err e ↦ (c', err e) | ok _ ↦ remove_source_files sys files c' ]

-- Where a goroutine stands: before the end of its job, after `finishedJobCount.Add`, after the
-- compare-and-swap with its outcome, after the update, and at its end.
pub data Phase : Type 0 where
  waiting counted cancelled : Phase
  decided sent failed gone : Bool → Phase

pub data ReportError : Type 0 where
  context_done : ReportError
  not_updated : StatusError → ReportError

pub record Reports : Type 0 where
  pub phases : List Phase
  pub finished_job_count : ℕ
  pub writer : StatusWriter
  pub errs : List ReportError
  pub files : Files

abbrev failure_of : Option Text → Option BuildFailed
failure_of none = none
failure_of (some e) = some (record { error = e })

abbrev finish_of : Bool → Option (Unit {0})
finish_of false = none
finish_of true = some tt

-- The update for a job.
abbrev pub update_for : JobResult → Bool → StatusUpdate
update_for job last = record {
  job_finished = some job;
  build_failed = failure_of job.error;
  build_finished = finish_of last;
}

-- A turn of goroutine `i`: it goes on, sending and removing as told; or it finds the context done.
pub data Turn : Type 0 where
  proceed : ℕ → Sending → (BuildId → System) → Turn
  cancel : ℕ → Turn

abbrev sources_of : Option (Dict BuildId Text) → Dict BuildId Text
sources_of none = []
sources_of (some files) = files

after_send : ℕ → Bool → Reports → Status → Reports
after_send i last r (w, err e) = record r {
  phases = set r.phases i (failed last);
  writer = w;
  errs = r.errs ++ not_updated e ∷ [];
}
after_send i last r (w, ok _) = record r { phases = set r.phases i (sent last); writer = w }

stop_waiting : ℕ → Option Phase → Reports → Reports
stop_waiting i (some waiting) r = record r {
  phases = set r.phases i cancelled;
  errs = r.errs ++ context_done ∷ [];
}
stop_waiting i _ r = r

module _ (results : ℕ → Option JobResult) where
  -- The result is read, and the count swapped for 0 where every job has finished.
  decide : ℕ → Reports → Outcome Reports
  decide i r = elim (results i) [
    | none ↦ panics
    | some job ↦
        if r.finished_job_count == length r.phases
        then returns (record r { phases = set r.phases i (decided true); finished_job_count = 0 })
        else returns (record r { phases = set r.phases i (decided false) })
  ]

  report : ℕ → Bool → Sending → Reports → Outcome Reports
  report i last how r = elim (results i) [
    | none ↦ panics
    | some job ↦
        updated how (update_for job last) r.writer andthen λ s. returns (after_send i last r s)
  ]

module _ (sources : List (Dict BuildId Text)) (results : ℕ → Option JobResult) where
  pub advance : ℕ → Sending → (BuildId → System) → Option Phase → Reports → Outcome Reports
  advance i how sys none r = returns r
  advance i how sys (some waiting) r =
      let r' = record r {
        phases = set r.phases i counted;
        finished_job_count = r.finished_job_count + 1;
      } in
      returns r'
  advance i how sys (some counted) r = decide results i r
  advance i how sys (some (decided last)) r = report results i last how r
  advance i how sys (some (sent last)) r =
      let files' = (remove_source_files sys (sources_of (get_elem? sources i)) r.files).0 in
      returns (record r { phases = set r.phases i (gone last); files = files' })
  advance i how sys (some cancelled) r = returns r
  advance i how sys (some (failed last)) r = returns r
  advance i how sys (some (gone last)) r = returns r

  pub take_turn : Turn → Reports → Outcome Reports
  take_turn (proceed i how sys) r = advance i how sys (get_elem? r.phases i) r
  take_turn (cancel i) r = returns (stop_waiting i (get_elem? r.phases i) r)

  pub take_turns : List Turn → Reports → Outcome Reports
  take_turns [] r = returns r
  take_turns (t ∷ ts) r = take_turn t r andthen λ r'. take_turns ts r'

-- `n` goroutines before their jobs have ended.
pub begin_reports : ℕ → StatusWriter → Files → Reports
begin_reports n w c = record {
  phases = replicate n waiting;
  finished_job_count = 0;
  writer = w;
  errs = [];
  files = c;
}

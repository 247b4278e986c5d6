-- ===== src/Dist/Signal/Safe.antt =====
-- A signalled build does not panic, and its stream ends the build at most once.
use distbuild.Common.{
  ◌≡◌, ◌≤◌, some, All, lookup, Result, ok, err, Outcome, returns, panics, blocks,
}
use distbuild.Build.{BuildId, id_discrete}
use distbuild.Api.Status.{StatusWriter}
use distbuild.Scheduler.{Scheduler}
use distbuild.Scheduler.Answered.{Answers, Answered}
use distbuild.Scheduler.Prompt.{Prompt}
use distbuild.Dist.Build.Ready.{Sound}
use distbuild.Dist.Build.Course.{FitsAround}
use distbuild.Dist.Reports.{Reports}
use distbuild.Dist.Reports.Counting.{tally, is_finish}
use distbuild.Dist.Coordinator.{Coordinator}
use distbuild.Dist.Signal.{Site, SignalError, Course}

-- The stream that the coordinator has for the build ends it at most once.
abbrev EndsOnce : BuildId → Site → Type 0
EndsOnce id u =
    (w : StatusWriter) × (lookup id_discrete u.coordinator.build_status_writer id ≡ some w)
    × (tally is_finish w.frames ≤ 1)

-- Not a panic; and when the call succeeds, such a stream.
pub Safe : BuildId → Outcome (Result SignalError Site) → Type 0
Safe id panics = ⊥
Safe id blocks = Unit {0}
Safe id (returns (err _)) = Unit {0}
Safe id (returns (ok u)) = EndsOnce id u

abbrev pub Answering : Course → Type 0
Answering course = FitsAround Answers course.around × All Answers course.others

module _ (course : Course) (id : BuildId) where
  -- The scheduler is in order and every finished job has a result.
  abbrev Ordered : Scheduler → Type 0
  Ordered s = Sound s × Answered s

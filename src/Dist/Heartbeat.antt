-- ===== src/Dist/Heartbeat.antt =====
-- pkg/dist/heartbeat_service.go: what a worker reports, and the jobs that it gets.
pub mod Response
pub mod Reported
pub mod Tests
use distbuild.Common.{
  ℕ, zero, suc, ◌≡◌, Bool, true, false, Option, none, some, List, [], ◌∷◌, ◌++◌, ite, get_elem?,
  Dict, lookup, insert, if◌then◌else◌, Result, ok, err, ℤ, dec, rounds, Outcome, returns, panics,
  ◌andthen◌, is_some,
}
use distbuild.Build.{BuildId, id_discrete}
use distbuild.Api.{WorkerId, JobSpec, JobResult, HeartbeatRequest, HeartbeatResponse}
use distbuild.Scheduler.{
  Ref, PendingJob, Scheduler, Call, complete, report, Select, pick_job, try_pick_job,
}
use distbuild.Dist.Build.{meanwhile}

-- What other callers do before a call of the scheduler, and how its `select` goes.
pub record Turn : Type 0 where
  pub others : List Call
  pub done : Bool
  pub select : Select

-- The calls of others before and within each `OnJobComplete`, and the turns of `PickJob` and of the
-- tries for each further slot.
pub record Surroundings : Type 0 where
  pub before : ℕ → List Call
  pub within : ℕ → List Call
  pub first : Turn
  pub try : ℕ → ℕ → Turn

-- `OnJobComplete`, other callers coming between its two parts.
pub complete_among :
    List Call
    → List Call
    → WorkerId
    → BuildId
    → Option JobResult
    → Scheduler
    → Outcome (Scheduler × Bool)
complete_among before within w id res s = meanwhile before s andthen λ s'.
    meanwhile (complete id res ∷ within ++ report w id ∷ []) s' andthen λ s''.
    returns (s'', is_some (lookup id_discrete s'.jobs id))

-- The loop over `req.FinishedJob`.
pub finish_jobs : Surroundings → ℕ → WorkerId → List JobResult → Scheduler → Outcome Scheduler
finish_jobs around i w [] s = returns s
finish_jobs around i w (job ∷ jobs) s =
    complete_among (around.before i) (around.within i) w job.id (some job) s andthen λ (s', exist).
    let rest = finish_jobs around (suc i) w jobs s' in if exist then rest else panics

contains_id : BuildId → List JobResult → Bool
contains_id id [] = false
contains_id id (job ∷ jobs) =
    let rest = contains_id id jobs in ite (id_discrete job.id id) true rest

-- The loop over `req.AddedArtifacts`, less those in `uniq`.
pub add_artifacts :
    Surroundings → ℕ → WorkerId → List JobResult → List BuildId → Scheduler → Outcome Scheduler
add_artifacts around i w jobs [] s = returns s
add_artifacts around i w jobs (id ∷ ids) s =
    let skip = add_artifacts around i w jobs ids s in
    let add = complete_among (around.before i) (around.within i) w id none s andthen λ (s', _).
    add_artifacts around (suc i) w jobs ids s' in
    if contains_id id jobs then skip else add

abbrev pub Answer : Type 0
Answer = Result (Unit {0}) (Dict BuildId JobSpec) × Scheduler

-- `responce.JobsToRun[pending.Job.ID] = *pending.Job`
with_job : Option PendingJob → Dict BuildId JobSpec → Dict BuildId JobSpec
with_job none jobs = jobs
with_job (some p) jobs = insert id_discrete jobs p.job.id p.job

-- At most `n` calls of `TryPickJob` for one slot; none when each found the queue empty.
pub try_slot : ℕ → (ℕ → Turn) → ℕ → Scheduler → Outcome (Option (Option Ref) × Scheduler)
try_slot zero turn k s = returns (none, s)
try_slot (suc n) turn k s = meanwhile (turn k).others s andthen λ s'.
    try_pick_job (turn k).done (turn k).select s' andthen λ (taken, s'').
    let again = try_slot n turn (suc k) s'' in
    if taken.1 then returns (some taken.0, s'') else again

-- The loop over the further slots.
pub fill_slots : ℕ → (ℕ → ℕ → Turn) → ℕ → Dict BuildId JobSpec → Scheduler → Outcome Answer
fill_slots zero try i jobs s = returns (ok jobs, s)
fill_slots (suc n) try i jobs s = try_slot 4 (try i) 0 s andthen λ (taken, s'). elim taken [
  | none ↦ fill_slots n try (suc i) jobs s'
  | some job ↦ elim job [
    | none ↦ returns (err tt, s')
    | some ref ↦ fill_slots n try (suc i) (with_job (get_elem? s'.pending ref) jobs) s'
  ]
]

-- `PickJob` for the first job, then the further slots.
pub pick_jobs : Surroundings → ℤ → Scheduler → Outcome Answer
pick_jobs around free_slots s = meanwhile around.first.others s andthen λ s'.
    pick_job around.first.done around.first.select s' andthen λ (job, s''). elim job [
      | none ↦ returns (err tt, s'')
      | some ref ↦
          fill_slots (rounds (dec free_slots)) around.try 0
            (with_job (get_elem? s''.pending ref) []) s''
    ]

pub heartbeat : Surroundings → HeartbeatRequest → Scheduler → Outcome Answer
heartbeat around req s = finish_jobs around 0 req.worker_id req.finished_job s andthen λ s'.
    add_artifacts around 0 req.worker_id req.finished_job req.added_artifacts s' andthen λ s''.
    pick_jobs around req.free_slots s''

-- ===== src/Scheduler.antt =====
-- pkg/scheduler: scheduler.go and queue.go. What a method does under one lock is one step, so
-- `OnJobComplete` is two; `Finished` is the Boolean that it is closed; a `*PendingJob` is its position
-- in the list of all that were allocated.
pub mod Invariant
pub mod Moves
pub mod Runs
pub mod Picks
pub mod Results
pub mod Artifacts
pub mod Prompt
pub mod Pending
pub mod Scheduling
pub mod Answered
pub mod Tests
use distbuild.Common.{
  ℕ, ◌+◌, ◌%◌, ◌<◌, ◌≡◌, refl, Bool, true, false, Option, none, some, List, [], ◌∷◌, ◌++◌, length,
  get_elem?, set, Dict, lookup, insert, if◌then◌else◌, ltb, leb, ◌==◌, Outcome, returns, panics,
  blocks, ◌andthen◌, is_some,
}
use distbuild.Build.{BuildId, Job, id_discrete}
use distbuild.Api.{WorkerId, JobResult, JobSpec}

pub record PendingJob : Type 0 where
  pub job : JobSpec
  pub finished : Bool
  pub result : Option JobResult
  pub is_close_finished : Bool

abbrev pub Ref : Type 0
Ref = ℕ

pub record Scheduler : Type 0 where
  pub is_stop : Bool
  pub queue : List Ref
  pub pending : List PendingJob
  pub jobs : Dict BuildId Ref
  pub artifacts : Dict BuildId (List WorkerId)

-- The capacity of the channel.
abbrev pub capacity : ℕ
capacity = 10000

pub new_scheduler : Scheduler
new_scheduler = record { is_stop = false; queue = []; pending = []; jobs = []; artifacts = [] }

-- Every method but `Stop` begins with this.
check_is_stop {ℓ} : {A : Type ℓ} → Scheduler → Outcome A → Outcome A
check_is_stop s rest = if s.is_stop then panics else rest

or_nil : Option (List WorkerId) → List WorkerId
or_nil none = []
or_nil (some ws) = ws

pub workers_of : Scheduler → BuildId → List WorkerId
workers_of s id = or_nil (lookup id_discrete s.artifacts id)

-- `workersID[rand.Intn(len(workersID))]`, for a random number.
pub choose : ℕ → List WorkerId → Option WorkerId
choose random [] = none
choose random (w ∷ ws) = get_elem? (w ∷ ws) (random % length (w ∷ ws))

pub locate_artifact : ℕ → BuildId → Scheduler → Outcome (Option WorkerId)
unfolding check_is_stop
locate_artifact random id s = check_is_stop s (returns (choose random (workers_of s id)))

drop_oldest : List WorkerId → List WorkerId
drop_oldest [] = []
drop_oldest (w ∷ ws) = ws

-- At most four workers are remembered for an artifact.
pub remember : WorkerId → List WorkerId → List WorkerId
remember w ws = let all = ws ++ w ∷ [] in if length all == 4 + 1 then drop_oldest all else all

pub add_worker : WorkerId → BuildId → Scheduler → Scheduler
add_worker w id s = record s {
  artifacts = insert id_discrete s.artifacts id (remember w (workers_of s id));
}

pub allocate : PendingJob → Scheduler → Scheduler
allocate p s = record s {
  pending = s.pending ++ p ∷ [];
  jobs = insert id_discrete s.jobs p.job.id (length s.pending);
}

-- The job of a `PendingJob` that stands for a job which was never scheduled here.
abbrev pub bare_spec : BuildId → JobSpec
bare_spec id = record {
  source_files = [];
  artifacts = [];
  job = record { id = id; name = []; inputs = []; deps = []; cmds = [] };
}

abbrev pub new_pending : JobSpec → Option JobResult → PendingJob
new_pending spec res = record {
  job = spec;
  finished = false;
  result = res;
  is_close_finished = false;
}

-- `if pendingJob.isCloseFinished.CompareAndSwap(false, true)`; closing a closed channel panics.
pub finish : Option JobResult → PendingJob → Outcome PendingJob
finish res p =
    if p.is_close_finished
    then returns p
    else if p.finished
    then panics
    else returns (record p { result = res; finished = true; is_close_finished = true })

finish_at : Ref → Option JobResult → Scheduler → Outcome Scheduler
finish_at ref res s = elim (get_elem? s.pending ref) [
  | none ↦ panics
  | some p ↦ finish res p andthen λ p'. returns (record s { pending = set s.pending ref p' })
]

-- `c.jobs[jobID]`, allocated where it is missing.
find_or_allocate : BuildId → Option JobResult → Scheduler → Ref × Scheduler
find_or_allocate id res s = elim (lookup id_discrete s.jobs id) [
  | some ref ↦ (ref, s)
  | none ↦ (length s.pending, allocate (new_pending (bare_spec id) res) s)
]

-- The part of `OnJobComplete` under `jobsMu`. The part under `artifactsMu` is `add_worker`.
pub complete_job : BuildId → Option JobResult → Scheduler → Outcome (Scheduler × Bool)
complete_job id res s =
    let (ref, s') = find_or_allocate id res s in
    finish_at ref res s' andthen λ s''. returns (s'', is_some (lookup id_discrete s.jobs id))

pub on_job_complete : WorkerId → BuildId → Option JobResult → Scheduler → Outcome (Scheduler × Bool)
unfolding check_is_stop
on_job_complete w id res s =
    check_is_stop s
      (complete_job id res s andthen λ (s', exist). returns (add_worker w id s', exist))

-- A push to a full channel waits, with `jobsMu` held.
pub schedule_job : JobSpec → Scheduler → Outcome (Ref × Scheduler)
unfolding check_is_stop
schedule_job spec s = check_is_stop s (elim (lookup id_discrete s.jobs spec.id) [
  | some ref ↦ returns (ref, s)
  | none ↦
      if leb capacity (length s.queue)
      then blocks
      else let ref = length s.pending in
        returns (ref, allocate (new_pending spec none) (record s { queue = s.queue ++ ref ∷ [] }))
])

-- What `select` takes where several cases are ready.
pub data Select : Type 0 where
  from_queue from_context : Select

pop_or : Scheduler → Option (Option Ref × Scheduler) → Option (Option Ref × Scheduler)
pop_or s other = elim s.queue [
  | [] ↦ other
  | ref ∷ rest ↦ some (some ref, record s { queue = rest })
]

from_done : Bool → Scheduler → Option (Option Ref × Scheduler)
from_done done s = if done then some (none, s) else none

-- The case of `select` over the queue and `ctx.Done()` that is taken, if one is ready.
pub select_ready : Bool → Select → Scheduler → Option (Option Ref × Scheduler)
unfolding pop_or from_done
select_ready done from_queue s = pop_or s (from_done done s)
select_ready done from_context s = if done then some (none, s) else pop_or s none

-- Without a ready case `select` waits.
pub pick_job : Bool → Select → Scheduler → Outcome (Option Ref × Scheduler)
unfolding check_is_stop
pick_job done sel s =
    check_is_stop s (elim (select_ready done sel s) [ some r ↦ returns r | none ↦ blocks ])

-- The same with a `default` case. The flag says that another case was taken.
pub try_pick_job : Bool → Select → Scheduler → Outcome ((Option Ref × Bool) × Scheduler)
unfolding check_is_stop
try_pick_job done sel s = check_is_stop s (elim (select_ready done sel s) [
  | some (r, s') ↦ returns ((r, true), s')
  | none ↦ returns ((none, false), s)
])

-- `close(c.isStop)`
pub stop : Scheduler → Outcome Scheduler
stop s = if s.is_stop then panics else returns (record s { is_stop = true })

-- The calls of the coordinator's services, with what they do not decide themselves. `complete` and
-- `report` are the two parts of `OnJobComplete`, between which other calls may come.
pub data Call : Type 0 where
  complete : BuildId → Option JobResult → Call
  report : WorkerId → BuildId → Call
  schedule : JobSpec → Call
  pick try_pick : Bool → Select → Call

handed : Option Ref → List Ref
handed none = []
handed (some ref) = ref ∷ []

-- One call, with the jobs that it hands to a worker.
pub step : Call → Scheduler → Outcome (List Ref × Scheduler)
unfolding handed check_is_stop
step (complete id res) s =
    check_is_stop s (complete_job id res s) andthen λ (s', _). returns ([], s')
step (report w id) s = returns ([], add_worker w id s)
step (schedule spec) s = schedule_job spec s andthen λ (_, s'). returns ([], s')
step (pick done sel) s = pick_job done sel s andthen λ (r, s'). returns (handed r, s')
step (try_pick done sel) s = try_pick_job done sel s andthen λ (r, s'). returns (handed r.0, s')

-- The calls in the order of their locks.
pub run : List Call → Scheduler → Outcome (List Ref × Scheduler)
run [] s = returns ([], s)
run (c ∷ cs) s =
    step c s andthen λ (given, s'). run cs s' andthen λ (more, s''). returns (given ++ more, s'')

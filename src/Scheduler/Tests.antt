-- ===== src/Scheduler/Tests.antt =====
-- Runs of the scheduler at concrete inputs.
use distbuild.Common.{
  arith, ℕ, ◌≡◌, ◌⊎◌, refl, true, false, none, some, List, [], ◌∷◌, Memᴰ, get_elem?, insert, lookup,
  subst, pos, returns, panics, blocks, is_some,
}
use distbuild.Build.{id_discrete}
use distbuild.Build.Id.Tests.{id_of}
use distbuild.Api.{WorkerId, JobResult, JobSpec}
use distbuild.Scheduler.{
  PendingJob, Scheduler, Call, complete, report, schedule, pick, try_pick, from_queue,
  new_scheduler, bare_spec, new_pending, allocate, finish, finish_at, find_or_allocate, add_worker,
  remember, drop_oldest, workers_of, or_nil, choose, locate_artifact, on_job_complete, complete_job,
  schedule_job, pick_job, try_pick_job, select_ready, step, run, handed, stop,
}
use distbuild.Scheduler.Invariant.{Inv, Inv-new}
use distbuild.Scheduler.Runs.{Safe, run-Safe}
use distbuild.Scheduler.Prompt.{Prompt, new_scheduler-Prompt, run-Prompt}
use distbuild.Scheduler.Picks.{Rising, picks_in_order, picks_once}
use distbuild.Scheduler.Results.{first_result_stays, Completes, on_job_complete-Completes}
use distbuild.Scheduler.Artifacts.{
  reported, last_four, workers_of-reported, locate_artifact-reported,
}

abbrev pub spec : ℕ → JobSpec
spec b = bare_spec (id_of b)

abbrev pub worker : ℕ → WorkerId
worker n = b'w' ∷ n ∷ []

abbrev pub result : ℕ → JobResult
result b = record { id = id_of b; stdout = []; stderr = []; exit_code = pos 0; error = none }

-- Two jobs, one of them scheduled twice; both are handed out, one completes on five workers.
abbrev history : List Call
history =
    schedule (spec 1)
    ∷ schedule (spec 2)
    ∷ schedule (spec 1)
    ∷ pick false from_queue
    ∷ try_pick false from_queue
    ∷ try_pick false from_queue
    ∷ complete (id_of 1) (some (result 1))
    ∷ report (worker 0) (id_of 1)
    ∷ complete (id_of 1) none
    ∷ report (worker 1) (id_of 1)
    ∷ complete (id_of 1) none
    ∷ report (worker 2) (id_of 1)
    ∷ complete (id_of 1) none
    ∷ report (worker 3) (id_of 1)
    ∷ complete (id_of 1) none
    ∷ report (worker 4) (id_of 1)
    ∷ []

abbrev pub finished_job : PendingJob
finished_job = record {
  job = spec 1;
  finished = true;
  result = some (result 1);
  is_close_finished = true;
}

abbrev waiting_job : PendingJob
waiting_job = new_pending (spec 2) none

abbrev at_end : Scheduler
at_end = record {
  is_stop = false;
  queue = [];
  pending = finished_job ∷ waiting_job ∷ [];
  jobs = (id_of 1, 0) ∷ (id_of 2, 1) ∷ [];
  artifacts = (id_of 1, worker 1 ∷ worker 2 ∷ worker 3 ∷ worker 4 ∷ []) ∷ [];
}

run-history : run history new_scheduler ≡ returns (0 ∷ 1 ∷ [], at_end)
unfolding new_scheduler run step handed complete_job schedule_job pick_job try_pick_job select_ready
    find_or_allocate allocate finish_at finish add_worker remember drop_oldest workers_of or_nil
    id_discrete insert lookup
run-history = refl

run-Safe_example : Safe (run history new_scheduler)
unfolding new_scheduler
run-Safe_example = run-Safe history new_scheduler refl Inv-new

at_end-Inv : Inv at_end
at_end-Inv = (subst Safe run-history run-Safe_example).0

picks_in_order_example : Rising 0 (0 ∷ 1 ∷ []) 2
picks_in_order_example = picks_in_order history (0 ∷ 1 ∷ []) at_end run-history

picks_once_example : ◌≡◌ {A = ℕ} 1 1
picks_once_example =
    picks_once history (0 ∷ 1 ∷ []) at_end 1 1 1 1 waiting_job waiting_job run-history refl refl
      refl refl refl

-- A later result for job 1 is dropped.
abbrev more : List Call
more = complete (id_of 1) (some (result 9)) ∷ report (worker 7) (id_of 1) ∷ []

abbrev after_more : Scheduler
after_more = record at_end {
  artifacts = (id_of 1, worker 2 ∷ worker 3 ∷ worker 4 ∷ worker 7 ∷ []) ∷ [];
}

run-more : run more at_end ≡ returns ([], after_more)
unfolding run step complete_job find_or_allocate finish_at finish add_worker remember drop_oldest
    workers_of or_nil id_discrete insert lookup
run-more = refl

first_result_stays_example : get_elem? after_more.pending 0 ≡ some finished_job
first_result_stays_example =
    first_result_stays more at_end after_more [] 0 finished_job refl at_end-Inv run-more refl refl

on_job_complete-Completes_example :
    (t : Scheduler) × (on_job_complete (worker 5) (id_of 2) (some (result 2)) at_end
      ≡ returns (t, is_some (lookup id_discrete at_end.jobs (id_of 2))))
    × Completes (id_of 2) (some (result 2)) at_end t
on_job_complete-Completes_example =
    on_job_complete-Completes (worker 5) (id_of 2) (some (result 2)) at_end refl at_end-Inv

workers_of-reported_example : workers_of at_end (id_of 1) ≡ last_four (reported (id_of 1) history)
workers_of-reported_example = workers_of-reported (id_of 1) history at_end (0 ∷ 1 ∷ []) run-history

locate_artifact-reported_example :
    ((reported (id_of 1) history ≡ []) × (locate_artifact 6 (id_of 1) at_end ≡ returns none))
    ⊎ ((w : WorkerId) × (locate_artifact 6 (id_of 1) at_end ≡ returns (some w))
        × Memᴰ w (last_four (reported (id_of 1) history)))
locate_artifact-reported_example =
    locate_artifact-reported 6 (id_of 1) history at_end (0 ∷ 1 ∷ []) run-history refl

-- Without a job a pick waits, and a try comes back empty-handed.
pick_waits : pick_job false from_queue at_end ≡ blocks
unfolding pick_job select_ready
pick_waits = refl

-- After `Stop` every other call panics, and so does a second `Stop`.
stopped_panics :
    (stop at_end ≡ returns (record at_end { is_stop = true }))
    × (stop (record at_end { is_stop = true }) ≡ panics)
unfolding stop
stopped_panics = (refl, refl)

-- Between the two parts of `OnJobComplete` a job has finished and its artifact is not located yet.
abbrev pub half_complete : List Call
half_complete =
    schedule (spec 1) ∷ pick false from_queue ∷ complete (id_of 1) (some (result 1)) ∷ []

abbrev pub half_way : Scheduler
half_way = record {
  is_stop = false;
  queue = [];
  pending = finished_job ∷ [];
  jobs = (id_of 1, 0) ∷ [];
  artifacts = [];
}

pub run-half_complete : run half_complete new_scheduler ≡ returns (0 ∷ [], half_way)
unfolding new_scheduler run step handed complete_job schedule_job pick_job select_ready
    find_or_allocate allocate finish_at finish id_discrete insert lookup
run-half_complete = refl

finished_not_located : locate_artifact 0 (id_of 1) half_way ≡ returns none
unfolding locate_artifact choose workers_of or_nil id_discrete lookup
finished_not_located = refl

-- The report follows.
abbrev pub after_report : Scheduler
after_report = record half_way { artifacts = (id_of 1, worker 0 ∷ []) ∷ [] }

pub run-report : run (report (worker 0) (id_of 1) ∷ []) half_way ≡ returns ([], after_report)
unfolding run step add_worker remember drop_oldest workers_of or_nil id_discrete insert lookup
run-report = refl

pub locate_artifact-report : locate_artifact 0 (id_of 1) after_report ≡ returns (some (worker 0))
unfolding locate_artifact choose workers_of or_nil id_discrete lookup
locate_artifact-report = refl

abbrev completed : List Call
completed =
    schedule (spec 1)
    ∷ pick false from_queue
    ∷ complete (id_of 1) (some (result 1))
    ∷ report (worker 0) (id_of 1)
    ∷ []

run-completed : run completed new_scheduler ≡ returns (0 ∷ [], after_report)
unfolding new_scheduler run step handed complete_job schedule_job pick_job select_ready
    find_or_allocate allocate finish_at finish add_worker remember drop_oldest workers_of or_nil
    id_discrete insert lookup
run-completed = refl

run-Prompt_example : Prompt after_report
unfolding new_scheduler
run-Prompt_example =
    run-Prompt completed new_scheduler after_report (0 ∷ []) refl Inv-new run-completed
      ((λ e. absurd (ground (arith, e))), tt) new_scheduler-Prompt.1

-- A job that waits is picked.
abbrev pub waiting : Scheduler
waiting = record half_way { queue = 0 ∷ []; pending = new_pending (spec 1) none ∷ [] }

abbrev pub picked : Scheduler
picked = record waiting { queue = [] }

pub run-nil : (s : Scheduler) → run [] s ≡ returns ([], s)
unfolding run
run-nil s = refl

pub pick_job-waiting : pick_job false from_queue waiting ≡ returns (some 0, picked)
unfolding pick_job select_ready
pick_job-waiting = refl

-- The first job is scheduled, handed out and completed.
abbrev pub queued : Scheduler
queued = record {
  is_stop = false;
  queue = 0 ∷ [];
  pending = new_pending (spec 1) none ∷ [];
  jobs = (id_of 1, 0) ∷ [];
  artifacts = [];
}

pub run_nothing : run [] new_scheduler ≡ returns ([], new_scheduler)
unfolding run
run_nothing = refl

pub schedule_job-first : schedule_job (spec 1) new_scheduler ≡ returns (0, queued)
unfolding schedule_job new_scheduler allocate insert lookup
schedule_job-first = refl

abbrev pub done_first : Scheduler
done_first = record {
  is_stop = false;
  queue = [];
  pending = finished_job ∷ [];
  jobs = (id_of 1, 0) ∷ [];
  artifacts = (id_of 1, worker 0 ∷ []) ∷ [];
}

abbrev pub to_done : List Call
to_done =
    pick false from_queue ∷ complete (id_of 1) (some (result 1)) ∷ report (worker 0) (id_of 1) ∷ []

pub run-to_done : run to_done queued ≡ returns (0 ∷ [], done_first)
unfolding run step handed complete_job pick_job select_ready find_or_allocate finish_at finish
    add_worker remember workers_of or_nil id_discrete insert lookup
run-to_done = refl

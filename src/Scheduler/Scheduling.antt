-- ===== src/Scheduler/Scheduling.antt =====
-- What `ScheduleJob` gives its caller.
use distbuild.Common.{
  ◌≡◌, refl, false, none, some, [], ◌∷◌, ◌++◌, length, get_elem?, lookup, returns, blocks,
  Option-cases, Bool-cases, inl, inr, ◌⊎◌, leb, get_elem?-snoc_last, arith,
}
use distbuild.Build.{id_discrete}
use distbuild.Api.{JobSpec}
use distbuild.Scheduler.{
  capacity, Ref, PendingJob, Scheduler, schedule, run, step, schedule_job, new_pending, allocate,
}
use distbuild.Scheduler.Invariant.{Inv}

pub run-schedule_job :
    (spec : JobSpec) (s t : Scheduler) (ref : Ref)
    → schedule_job spec s ≡ returns (ref, t)
    → run (schedule spec ∷ []) s ≡ returns ([], t)
unfolding run step
run-schedule_job spec s t ref e = ground (arith, e)

-- It waits, or gives a pending job of the identifier.
pub schedule_job-cases :
    (spec : JobSpec) (s : Scheduler)
    → s.is_stop ≡ false
    → Inv s
    → (schedule_job spec s ≡ blocks)
      ⊎ ((ref : Ref) × (t : Scheduler) × (p : PendingJob) × (schedule_job spec s ≡ returns (ref, t))
          × (get_elem? t.pending ref ≡ some p)
          × (p.job.id ≡ spec.id))
unfolding schedule_job allocate
schedule_job-cases spec s running inv = elim (Option-cases (lookup id_discrete s.jobs spec.id)) [
  | inr (ref, found) ↦
      let (p, at, own) = inv.entries spec.id ref found in
      inr (ref, s, p, ground (arith, found, running), at, own)
  | inl free ↦ elim (Bool-cases (leb capacity (length s.queue))) [
    | inl full ↦ inl (ground (arith, free, full, running))
    | inr room ↦ inr (
      length s.pending,
      allocate (new_pending spec none) (record s { queue = s.queue ++ length s.pending ∷ [] }),
      new_pending spec none,
      ground (arith, free, room, running),
      get_elem?-snoc_last s.pending (new_pending spec none),
      refl,
    )
  ]
]

-- ===== src/Scheduler/Moves.antt =====
-- The calls of the scheduler as moves between states: what a call may do, whatever its arguments.
use distbuild.Common.{
  ◌<◌, ◌≡◌, refl, sym, subst, ◌⊎◌, inl, inr, Bool, true, false, Option, none, some, List, [], ◌∷◌,
  ◌++◌, length, get_elem?, set, get_elem?-snoc_last, lookup, Option-cases, Bool-cases, List-cases,
  Outcome, returns, blocks, leb, arith,
}
use distbuild.Build.{BuildId, id_discrete}
use distbuild.Api.{WorkerId, JobResult, JobSpec}
use distbuild.Scheduler.{
  capacity, PendingJob, Ref, Scheduler, Call, complete, report, schedule, pick, try_pick, Select,
  from_queue, from_context, bare_spec, new_pending, allocate, finish, finish_at, find_or_allocate,
  add_worker, complete_job, schedule_job, pick_job, try_pick_job, select_ready, pop_or, from_done,
  handed, step,
}
use distbuild.Scheduler.Invariant.{Inv, finish_ends}

abbrev pub enqueued : JobSpec → Scheduler → Scheduler
enqueued spec s =
    allocate (new_pending spec none) (record s { queue = s.queue ++ length s.pending ∷ [] })

abbrev pub replaced : Ref → PendingJob → Scheduler → Scheduler
replaced ref p s = record s { pending = set s.pending ref p }

abbrev pub known : BuildId → Option JobResult → Scheduler → Scheduler
known id res s = allocate (new_pending (bare_spec id) res) s

-- `given` are the jobs that the move hands to a worker.
pub data Move (s : Scheduler) (given : List Ref) (t : Scheduler) : Type 0 where
  idle : given ≡ [] → t ≡ s → Move s given t
  enqueue :
      (spec : JobSpec)
      → lookup id_discrete s.jobs spec.id ≡ none
      → length s.queue < capacity
      → given ≡ []
      → t ≡ enqueued spec s
      → Move s given t
  hand :
      (ref : Ref) (rest : List Ref)
      → s.queue ≡ ref ∷ rest
      → given ≡ ref ∷ []
      → t ≡ record s { queue = rest }
      → Move s given t
  settle :
      (id : BuildId) (res : Option JobResult) (ref : Ref) (p p' : PendingJob)
      → lookup id_discrete s.jobs id ≡ some ref
      → get_elem? s.pending ref ≡ some p
      → finish res p ≡ returns p'
      → given ≡ []
      → t ≡ replaced ref p' s
      → Move s given t
  settle_unknown :
      (id : BuildId) (res : Option JobResult) (p' : PendingJob)
      → lookup id_discrete s.jobs id ≡ none
      → finish res (new_pending (bare_spec id) res) ≡ returns p'
      → given ≡ []
      → t ≡ replaced (length s.pending) p' (known id res s)
      → Move s given t
  add : (w : WorkerId) (id : BuildId) → given ≡ [] → t ≡ add_worker w id s → Move s given t

pop_or_nil :
    (s : Scheduler) (other : Option (Option Ref × Scheduler))
    → s.queue ≡ []
    → pop_or s other ≡ other
unfolding pop_or
pop_or_nil s other e = ground arith

pop_or_cons :
    (s : Scheduler) (other : Option (Option Ref × Scheduler)) (ref : Ref) (rest : List Ref)
    → s.queue ≡ ref ∷ rest
    → pop_or s other ≡ some (some ref, record s { queue = rest })
unfolding pop_or
pop_or_cons s other ref rest e = ground arith

-- A call waits, or returns after a move.
abbrev Moves : Scheduler → Outcome (List Ref × Scheduler) → Type 0
Moves s r =
    (r ≡ blocks)
    ⊎ ((given : List Ref) × (t : Scheduler) × (r ≡ returns (given, t)) × Move s given t)

module _ (s : Scheduler) (running : s.is_stop ≡ false) where
  complete-Moves :
      (id : BuildId) (res : Option JobResult) → Inv s → Moves s (step (complete id res) s)
  unfolding step complete_job find_or_allocate finish_at allocate
  complete-Moves id res inv = elim (Option-cases (lookup id_discrete s.jobs id)) [
    | inr (ref, found) ↦
        let (p, e, _) = inv.entries id ref found in
        let (p', done, _, _, _) = finish_ends res p (inv.closed ref p e) in
        inr (
          [],
          replaced ref p' s,
          ground (arith, found, e, done),
          settle id res ref p p' found e done refl refl,
        )
    | inl free ↦
        let (p', done, _, _, _) = finish_ends res (new_pending (bare_spec id) res) refl in
        inr (
          [],
          replaced (length s.pending) p' (known id res s),
          ground
              (arith, free, done, get_elem?-snoc_last s.pending (new_pending (bare_spec id) res)),
          settle_unknown id res p' free done refl refl,
        )
  ]

  schedule-Moves : (spec : JobSpec) → Moves s (step (schedule spec) s)
  unfolding step schedule_job
  schedule-Moves spec = elim (Option-cases (lookup id_discrete s.jobs spec.id)) [
    | inr (ref, found) ↦ inr ([], s, ground arith, idle refl refl)
    | inl free ↦ elim (Bool-cases (leb capacity (length s.queue))) [
      | inl full ↦ inl (ground arith)
      | inr room ↦
          inr ([], enqueued spec s, ground arith, enqueue spec free (ground arith) refl refl)
    ]
  ]

  -- What a `select` takes.
  Taken : Option (Option Ref × Scheduler) → Type 0
  Taken none = Unit {0}
  Taken (some (r, t)) = Move s (handed r) t

  pop_or-Taken : (other : Option (Option Ref × Scheduler)) → Taken other → Taken (pop_or s other)
  unfolding pop_or Taken handed
  pop_or-Taken other h = elim (List-cases s.queue) [
    | inl empty ↦ subst Taken (sym (pop_or_nil s other empty)) h
    | inr (ref, rest, e) ↦
        subst Taken (sym (pop_or_cons s other ref rest e)) (hand ref rest e refl refl)
  ]

  select_ready-Taken : (done : Bool) (sel : Select) → Taken (select_ready done sel s)
  unfolding select_ready from_done Taken handed
  select_ready-Taken false from_queue = pop_or-Taken none tt
  select_ready-Taken true from_queue = pop_or-Taken (some (none, s)) (idle refl refl)
  select_ready-Taken true from_context = idle refl refl
  select_ready-Taken false from_context = pop_or-Taken none tt

  pick-Moves : (done : Bool) (sel : Select) → Moves s (step (pick done sel) s)
  unfolding step pick_job Taken
  pick-Moves done sel = elim (Option-cases (select_ready done sel s)) [
    | inl waits ↦ inl (ground arith)
    | inr ((r, t), e) ↦ inr (handed r, t, ground arith, subst Taken e (select_ready-Taken done sel))
  ]

  try_pick-Moves : (done : Bool) (sel : Select) → Moves s (step (try_pick done sel) s)
  unfolding step try_pick_job Taken
  try_pick-Moves done sel = elim (Option-cases (select_ready done sel s)) [
    | inl waits ↦ inr ([], s, ground arith, idle refl refl)
    | inr ((r, t), e) ↦ inr (handed r, t, ground arith, subst Taken e (select_ready-Taken done sel))
  ]

  report-Moves : (w : WorkerId) (id : BuildId) → Moves s (step (report w id) s)
  unfolding step
  report-Moves w id = inr ([], add_worker w id s, refl, add w id refl refl)

  pub step-Moves : (c : Call) → Inv s → Moves s (step c s)
  step-Moves (complete id res) inv = complete-Moves id res inv
  step-Moves (report w id) inv = report-Moves w id
  step-Moves (schedule spec) inv = schedule-Moves spec
  step-Moves (pick done sel) inv = pick-Moves done sel
  step-Moves (try_pick done sel) inv = try_pick-Moves done sel

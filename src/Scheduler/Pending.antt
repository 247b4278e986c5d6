-- ===== src/Scheduler/Pending.antt =====
-- Which jobs a call leaves as they were.
use distbuild.Common.{
  ◌≡◌, refl, sym, ap, subst, ◌∙◌, Bool, true, Option, none, some, List, [], ◌∷◌, ◌++◌, length,
  get_elem?, set, lookup, returns, Outcome-cases, Option-cases, Bool-cases, inl, inr, ◌⊎◌, leb,
  get_elem?-snoc, get_elem?-snoc_last, get_elem?-set_cases, arith,
}
use distbuild.Build.{BuildId, id_discrete}
use distbuild.Api.{WorkerId, JobSpec, JobResult}
use distbuild.Scheduler.{
  capacity, PendingJob, Ref, Scheduler, complete, report, schedule, pick, try_pick, Select,
  from_queue, from_context, new_pending, bare_spec, allocate, finish, finish_at, find_or_allocate,
  add_worker, complete_job, schedule_job, pick_job, try_pick_job, select_ready, pop_or, from_done,
  step,
}
use distbuild.Scheduler.Invariant.{Inv}

finish-job :
    (res : Option JobResult) (p p' : PendingJob) → finish res p ≡ returns p' → p'.job ≡ p.job
unfolding finish
finish-job res p p' e = ground arith

finish_at-Finishes :
    (id : BuildId) (res : Option JobResult) (ref : Ref) (p : PendingJob) (s t : Scheduler)
    → get_elem? s.pending ref ≡ some p
    → p.job.id ≡ id
    → finish_at ref res s ≡ returns t
    → (r : Ref) (q : PendingJob) → get_elem? t.pending r ≡ some q
    → (q.job.id ≡ id) ⊎ (get_elem? s.pending r ≡ some q)
unfolding finish_at
finish_at-Finishes id res ref p s t at own e r q h = elim (Outcome-cases (finish res p)) [
  | inl x ↦ absurd (ground arith)
  | inr (inl x) ↦ absurd (ground arith)
  | inr (inr (p', x)) ↦
      let job = finish-job res p p' x in
      let same : record s { pending = set s.pending ref p' } ≡ t = ground arith in
      let h' : get_elem? (set s.pending ref p') r ≡ some q =
        subst (λ (t : Scheduler). get_elem? t.pending r ≡ some q) (sym same) h in
      elim (get_elem?-set_cases s.pending ref p' r h') [
        | inl (_, there) ↦
            inl
              (ap (λ (q : PendingJob). q.job.id) (sym there) ∙ ap (λ (j : JobSpec). j.id) job ∙ own)
        | inr (_, old) ↦ inr old
      ]
]

-- Completing a job changes no job of another identifier.
pub complete-pending :
    (id : BuildId) (res : Option JobResult) (s t : Scheduler) {given : List Ref}
    → Inv s
    → step (complete id res) s ≡ returns (given, t)
    → (r : Ref) (q : PendingJob) → get_elem? t.pending r ≡ some q
    → (q.job.id ≡ id) ⊎ (get_elem? s.pending r ≡ some q)
unfolding step complete_job find_or_allocate allocate
complete-pending id res s t inv e r q h = elim (Option-cases (lookup id_discrete s.jobs id)) [
  | inr (ref, found) ↦
      let (p, at, own) = inv.entries id ref found in
      elim (Outcome-cases (finish_at ref res s)) [
        | inl x ↦ absurd (ground arith)
        | inr (inl x) ↦ absurd (ground arith)
        | inr (inr (u, x)) ↦
            let same : u ≡ t = ground arith in
            finish_at-Finishes id res ref p s t at own (x ∙ ap returns same) r q h
      ]
  | inl free ↦
      let job = new_pending (bare_spec id) res in
      let s' = allocate job s in
      let last = get_elem?-snoc_last s.pending job in
      elim (Outcome-cases (finish_at (length s.pending) res s')) [
        | inl x ↦ absurd (ground arith)
        | inr (inl x) ↦ absurd (ground arith)
        | inr (inr (u, x)) ↦
            let same : u ≡ t = ground arith in
            elim (finish_at-Finishes id res (length s.pending) job s' t last refl
              (x ∙ ap returns same) r q h) [
                | inl own ↦ inl own
                | inr old ↦ elim (get_elem?-snoc s.pending job r old) [
                  | inl before ↦ inr before
                  | inr (_, new) ↦ inl (ap (λ (q : PendingJob). q.job.id) (sym new))
                ]
              ]
      ]
]

-- Scheduling a job finishes none.
pub schedule-pending :
    (spec : JobSpec) (s t : Scheduler) {given : List Ref}
    → step (schedule spec) s ≡ returns (given, t)
    → (r : Ref) (q : PendingJob) → get_elem? t.pending r ≡ some q
    → q.finished ≡ true
    → get_elem? s.pending r ≡ some q
unfolding step schedule_job allocate
schedule-pending spec s t e r q h done = elim (Option-cases (lookup id_discrete s.jobs spec.id)) [
  | inr (ref, found) ↦
      let same : s ≡ t = ground arith in
      subst (λ (t : Scheduler). get_elem? t.pending r ≡ some q) (sym same) h
  | inl free ↦ elim (Bool-cases (leb capacity (length s.queue))) [
    | inl full ↦ absurd (ground arith)
    | inr room ↦
        let same : s.pending ++ new_pending spec none ∷ [] ≡ t.pending = ground arith in
        elim (get_elem?-snoc s.pending (new_pending spec none) r
          (subst (λ l. get_elem? l r ≡ some q) (sym same) h)) [
            | inl old ↦ old
            | inr (_, new) ↦ absurd (cc (ap (λ (q : PendingJob). q.finished) new))
          ]
  ]
]

select_ready-pending :
    (done : Bool) (sel : Select) (s t : Scheduler) (r : Option Ref)
    → select_ready done sel s ≡ some (r, t)
    → t.pending ≡ s.pending
unfolding select_ready pop_or from_done
select_ready-pending done from_queue s t r e = ground arith
select_ready-pending done from_context s t r e = ground arith

pub pick-pending :
    (done : Bool) (sel : Select) (s t : Scheduler) {given : List Ref}
    → step (pick done sel) s ≡ returns (given, t)
    → t.pending ≡ s.pending
unfolding step pick_job
pick-pending done sel s t e = elim (Option-cases (select_ready done sel s)) [
  | inl waits ↦ absurd (ground arith)
  | inr ((r, u), x) ↦ ground (arith, select_ready-pending done sel s u r x)
]

pub try_pick-pending :
    (done : Bool) (sel : Select) (s t : Scheduler) {given : List Ref}
    → step (try_pick done sel) s ≡ returns (given, t)
    → t.pending ≡ s.pending
unfolding step try_pick_job
try_pick-pending done sel s t e = elim (Option-cases (select_ready done sel s)) [
  | inl waits ↦ ground arith
  | inr ((r, u), x) ↦ ground (arith, select_ready-pending done sel s u r x)
]

pub report-pending :
    (w : WorkerId) (id : BuildId) (s t : Scheduler) {given : List Ref}
    → step (report w id) s ≡ returns (given, t)
    → t.pending ≡ s.pending
unfolding step add_worker
report-pending w id s t e = ground arith

-- ===== src/Scheduler/Invariant.antt =====
-- What holds of the scheduler between two calls.
use distbuild.Common.{
  ◌≡◌, ◌∙◌, refl, sym, ap, subst, inl, inr, true, Option, none, some, List, [], ◌∷◌, ◌++◌, length,
  get_elem?, set, get_elem?-snoc, get_elem?-snoc_old, get_elem?-snoc_last, get_elem?-set_cases,
  get_elem?-set_same, get_elem?-set_other, lookup, insert, lookup-insert, lookup-insert_self,
  lookup-insert_ne, Bool-cases, ℕ_discrete, returns, arith,
}
use distbuild.Build.{BuildId, id_discrete}
use distbuild.Api.{WorkerId, JobResult, JobSpec}
use distbuild.Scheduler.{PendingJob, Ref, Scheduler, new_scheduler, allocate, finish, add_worker}

-- `jobs` and the allocated jobs are inverse to one another, and the flag of each job says whether its
-- channel is closed.
pub record Inv (s : Scheduler) : Type 0 where
  pub entries :
      (id : BuildId) (ref : Ref)
      → lookup id_discrete s.jobs id ≡ some ref
      → (p : PendingJob) × (get_elem? s.pending ref ≡ some p) × (p.job.id ≡ id)
  pub owners :
      (ref : Ref) (p : PendingJob)
      → get_elem? s.pending ref ≡ some p
      → lookup id_discrete s.jobs p.job.id ≡ some ref
  pub closed :
      (ref : Ref) (p : PendingJob)
      → get_elem? s.pending ref ≡ some p
      → p.finished ≡ p.is_close_finished

pub Inv-new : Inv new_scheduler
unfolding new_scheduler lookup
Inv-new = record {
  entries = λ id ref e. absurd (cc);
  owners = λ ref p e. absurd (cc);
  closed = λ ref p e. absurd (cc);
}

pub allocate-Inv :
    (p : PendingJob) (s : Scheduler)
    → lookup id_discrete s.jobs p.job.id ≡ none
    → p.finished ≡ p.is_close_finished
    → Inv s
    → Inv (allocate p s)
unfolding allocate
allocate-Inv p s free same inv = record {
  entries = λ id ref e. elim (id_discrete p.job.id id) [
    | yes own ↦
        let at_end : length s.pending ≡ ref =
          ground (arith, lookup-insert id_discrete s.jobs p.job.id id (length s.pending)) in
        (
          p,
          subst (λ r. get_elem? (s.pending ++ p ∷ []) r ≡ some p) at_end
              (get_elem?-snoc_last s.pending p),
          own,
        )
    | no other ↦
        let (q, eq, e') =
          inv.entries id ref
            (sym (lookup-insert_ne id_discrete s.jobs p.job.id id (length s.pending) other) ∙ e) in
        (q, get_elem?-snoc_old s.pending p ref eq, e')
  ];
  owners = λ ref q e. elim (get_elem?-snoc s.pending p ref e) [
    | inl old ↦ ground (
      arith,
      inv.owners ref q old,
      lookup-insert id_discrete s.jobs p.job.id q.job.id (length s.pending),
    )
    | inr (last, e') ↦
        subst
          (λ (q : PendingJob).
            lookup id_discrete (insert id_discrete s.jobs p.job.id (length s.pending)) q.job.id
            ≡ some ref)
          e'
          (lookup-insert_self id_discrete s.jobs p.job.id (length s.pending) ∙ ap some (sym last))
  ];
  closed = λ ref q e. elim (get_elem?-snoc s.pending p ref e) [
    | inl old ↦ inv.closed ref q old
    | inr (last, e') ↦ subst (λ (q : PendingJob). q.finished ≡ q.is_close_finished) e' same
  ];
}

-- A job keeps its identifier when it finishes, and finishing it never closes a closed channel.
pub finish_ends :
    (res : Option JobResult) (p : PendingJob)
    → p.finished ≡ p.is_close_finished
    → (p' : PendingJob) × (finish res p ≡ returns p')
      × (p'.job ≡ p.job)
      × (p'.finished ≡ true)
      × (p'.is_close_finished ≡ true)
unfolding finish
finish_ends res p same = elim (Bool-cases p.is_close_finished) [
  | inl done ↦ (p, rw done, refl, same ∙ done, done)
  | inr still ↦ (
    record p { result = res; finished = true; is_close_finished = true },
    rw (still, same ∙ still),
    refl,
    refl,
    refl,
  )
]

pub set-Inv :
    (ref : Ref) (p p' : PendingJob) (s : Scheduler)
    → get_elem? s.pending ref ≡ some p
    → p'.job ≡ p.job
    → p'.finished ≡ p'.is_close_finished
    → Inv s
    → Inv (record s { pending = set s.pending ref p' })
set-Inv ref p p' s e job same inv = record {
  entries = λ id r h.
      let (q, eq, own) = inv.entries id r h in
      elim (ℕ_discrete ref r) [
        | yes here ↦
            let there : p ≡ q = cc in
            (
              p',
              subst (λ r. get_elem? (set s.pending ref p') r ≡ some p') here
                  (get_elem?-set_same s.pending ref p' e),
              ap (λ (j : JobSpec). j.id) job ∙ ap (λ (p : PendingJob). p.job.id) there ∙ own,
            )
        | no there ↦ (q, get_elem?-set_other s.pending ref p' r there ∙ eq, own)
      ];
  owners = λ r q h. elim (get_elem?-set_cases s.pending ref p' r h) [
    | inl (here, e') ↦
        subst (λ (q : PendingJob). lookup id_discrete s.jobs q.job.id ≡ some r) e'
          (rw job (inv.owners ref p e ∙ ap some here))
    | inr (there, old) ↦ inv.owners r q old
  ];
  closed = λ r q h. elim (get_elem?-set_cases s.pending ref p' r h) [
    | inl (here, e') ↦ subst (λ (q : PendingJob). q.finished ≡ q.is_close_finished) e' same
    | inr (there, old) ↦ inv.closed r q old
  ];
}

pub add_worker-Inv : (w : WorkerId) (id : BuildId) (s : Scheduler) → Inv s → Inv (add_worker w id s)
unfolding add_worker
add_worker-Inv w id s inv = record {
  entries = inv.entries;
  owners = inv.owners;
  closed = inv.closed;
}

pub queue-Inv : (s : Scheduler) (queue : List Ref) → Inv s → Inv (record s { queue = queue })
queue-Inv s queue inv = record { entries = inv.entries; owners = inv.owners; closed = inv.closed }

-- ===== src/Scheduler/Results.antt =====
-- The results of jobs: the first one stays.
use distbuild.Common.{
  sym, Bool, Outcome-cases, ◌≡◌, refl, ap, subst, ◌∙◌, inl, inr, true, false, Option, none, some,
  List, [], ◌∷◌, ◌++◌, length, get_elem?, set, get_elem?-snoc_old, get_elem?-snoc_last,
  get_elem?-set_same, get_elem?-set_other, lt_of_get_elem?, lookup, lookup-insert_self,
  Option-cases, ℕ_discrete, returns, is_some, arith,
}
use distbuild.Build.{BuildId, id_discrete}
use distbuild.Api.{WorkerId, JobResult}
use distbuild.Scheduler.{
  check_is_stop, complete, step, PendingJob, Ref, Scheduler, Call, new_pending, bare_spec, allocate,
  finish, finish_at, find_or_allocate, add_worker, on_job_complete, complete_job, run,
}
use distbuild.Scheduler.Invariant.{Inv, finish_ends}
use distbuild.Scheduler.Moves.{
  Move, idle, enqueue, hand, settle, settle_unknown, add, replaced, known,
}
use distbuild.Scheduler.Runs.{step-Safe, run_rule}

-- Every job of `s` is still there in `t`, as it was if it had finished.
abbrev pub Settled : Scheduler → Scheduler → Type 0
Settled s t =
    (ref : Ref) (p : PendingJob)
    → get_elem? s.pending ref ≡ some p
    → (p' : PendingJob) × (get_elem? t.pending ref ≡ some p')
      × (p'.job ≡ p.job)
      × (p.finished ≡ true → p' ≡ p)

pub Settled-refl : (s t : Scheduler) → s.pending ≡ t.pending → Settled s t
Settled-refl s t e ref p at = (p, subst (λ l. get_elem? l ref ≡ some p) e at, refl, λ _. refl)

pub Settled-trans : (s t u : Scheduler) → Settled s t → Settled t u → Settled s u
Settled-trans s t u f g ref p at =
    let (p', at', job, kept) = f ref p at in
    let (p'', at'', job', kept') = g ref p' at' in
    (p'', at'', job' ∙ job, λ h. kept' (ap (λ (p : PendingJob). p.finished) (kept h) ∙ h) ∙ kept h)

-- A job that has finished is not changed by another result.
finish_kept :
    (res : Option JobResult) (p p' : PendingJob)
    → p.finished ≡ p.is_close_finished
    → finish res p ≡ returns p'
    → (p'.job ≡ p.job) × (p.finished ≡ true → p' ≡ p)
unfolding finish
finish_kept res p p' same e = (ground arith, λ h. ground arith)

replaced-Settled :
    (ref : Ref) (p p' : PendingJob) (s : Scheduler)
    → get_elem? s.pending ref ≡ some p
    → p'.job ≡ p.job
    → (p.finished ≡ true → p' ≡ p)
    → Settled s (replaced ref p' s)
replaced-Settled ref p p' s at job kept r q e = elim (ℕ_discrete ref r) [
  | yes here ↦
      let there : p ≡ q = cc in
      (
        p',
        subst (λ r. get_elem? (set s.pending ref p') r ≡ some p') here
            (get_elem?-set_same s.pending ref p' at),
        job ∙ ap (λ (p : PendingJob). p.job) there,
        λ h. kept (ap (λ (p : PendingJob). p.finished) there ∙ h) ∙ there,
      )
  | no other ↦ (q, get_elem?-set_other s.pending ref p' r other ∙ e, refl, λ _. refl)
]

allocate-Settled :
    (p : PendingJob) (s t : Scheduler) → t.pending ≡ s.pending ++ p ∷ [] → Settled s t
allocate-Settled p s t e ref q at =
    (q, rw e (get_elem?-snoc_old s.pending p ref at), refl, λ _. refl)

Move-Settled : {s t : Scheduler} {given : List Ref} → Inv s → Move s given t → Settled s t
unfolding allocate add_worker
Move-Settled {s} {t} inv (idle _ e) = Settled-refl s t (ground arith)
Move-Settled {s} {t} inv (enqueue spec free _ _ e) =
    allocate-Settled (new_pending spec none) s t (ground arith)
Move-Settled {s} {t} inv (hand ref rest _ _ e) = Settled-refl s t (ground arith)
Move-Settled {s} {t} inv (settle id res ref p p' found at done _ e) =
    let (job, kept) = finish_kept res p p' (inv.closed ref p at) done in
    Settled-trans s (replaced ref p' s) t (replaced-Settled ref p p' s at job kept)
      (Settled-refl (replaced ref p' s) t (ground arith))
Move-Settled {s} {t} inv (add w id _ e) = Settled-refl s t (ground arith)
Move-Settled {s} {t} inv (settle_unknown id res p' free done _ e) =
    let job = new_pending (bare_spec id) res in
    λ ref p at. (
      p,
      rw e (
          get_elem?-set_other (s.pending ++ job ∷ []) (length s.pending) p' ref
            (λ same. absurd (omega (arith, lt_of_get_elem? s.pending ref at)))
          ∙ get_elem?-snoc_old s.pending job ref at),
      refl,
      λ _. refl,
    )

-- A whole history settles jobs the way a single call does.
pub run-Settled :
    (cs : List Call) (s t : Scheduler) {given : List Ref}
    → s.is_stop ≡ false
    → Inv s
    → run cs s ≡ returns (given, t)
    → Settled s t
run-Settled cs s t {given} running inv e =
    run_rule (λ _ u. Settled s u) (λ u v _ _ inv mv h. Settled-trans s u v h (Move-Settled inv mv))
      cs s [] t given running inv (Settled-refl s s refl) e

-- The first result stays: whatever the calls of a history are, a job that had finished before it is
-- afterwards the same job with the same result.
pub first_result_stays :
    (cs : List Call) (s t : Scheduler) (given : List Ref) (ref : Ref) (p : PendingJob)
    → s.is_stop ≡ false
    → Inv s
    → run cs s ≡ returns (given, t)
    → get_elem? s.pending ref ≡ some p
    → p.finished ≡ true
    → get_elem? t.pending ref ≡ some p
first_result_stays cs s t given ref p running inv e at done =
    let (p', at', _, kept) = run-Settled cs s t running inv e ref p at in at' ∙ ap some (kept done)

-- The job that `jobs` holds for an identifier has finished; where it had not before, with `res`.
pub record Completes (id : BuildId) (res : Option JobResult) (s t : Scheduler) : Type 0 where
  pub ref : Ref
  pub job : PendingJob
  pub entry : lookup id_discrete t.jobs id ≡ some ref
  pub at : get_elem? t.pending ref ≡ some job
  pub done : job.finished ≡ true
  pub result :
      ((p : PendingJob) → get_elem? s.pending ref ≡ some p → p.finished ≡ false) → job.result ≡ res

finish-result :
    (res : Option JobResult) (p p' : PendingJob)
    → p.finished ≡ p.is_close_finished
    → finish res p ≡ returns p'
    → (p'.finished ≡ true) × (p.finished ≡ false → p'.result ≡ res)
unfolding finish
finish-result res p p' same e = (ground arith, λ h. ground arith)

-- Completing a job on a running scheduler returns whether the job was known, and leaves the job
-- finished: with the given result, unless it had finished before.
pub on_job_complete-Completes :
    (w : WorkerId) (id : BuildId) (res : Option JobResult) (s : Scheduler)
    → s.is_stop ≡ false
    → Inv s
    → (t : Scheduler) × (on_job_complete w id res s
        ≡ returns (t, is_some (lookup id_discrete s.jobs id)))
      × Completes id res s t
unfolding on_job_complete complete_job find_or_allocate finish_at allocate add_worker
on_job_complete-Completes w id res s running inv =
    elim (Option-cases (lookup id_discrete s.jobs id)) [
      | inr (ref, found) ↦
          let (p, at, _) = inv.entries id ref found in
          let (p', e, _, _, _) = finish_ends res p (inv.closed ref p at) in
          let (done, result) = finish-result res p p' (inv.closed ref p at) e in
          (
            add_worker w id (replaced ref p' s),
            ground (arith, found, at, e),
            record {
              ref = ref;
              job = p';
              entry = found;
              at = get_elem?-set_same s.pending ref p' at;
              done = done;
              result = λ h. result (h p at);
            },
          )
      | inl free ↦
          let job = new_pending (bare_spec id) res in
          let (p', e, _, _, _) = finish_ends res job refl in
          let (done, result) = finish-result res job p' refl e in
          let at = get_elem?-snoc_last s.pending job in
          (
            add_worker w id (replaced (length s.pending) p' (known id res s)),
            ground (arith, free, at, e),
            record {
              ref = length s.pending;
              job = p';
              entry = lookup-insert_self id_discrete s.jobs id (length s.pending);
              at = get_elem?-set_same (s.pending ++ job ∷ []) (length s.pending) p' at;
              done = done;
              result = λ _. result refl;
            },
          )
    ]

-- The first part of a completion leaves the job finished already, and with that result if it was not.
pub step-complete_done :
    (id : BuildId) (res : Option JobResult) (s t : Scheduler) {given : List Ref}
    → s.is_stop ≡ false
    → Inv s
    → step (complete id res) s ≡ returns (given, t)
    → (ref : Ref) × (p : PendingJob) × (get_elem? t.pending ref ≡ some p)
      × (p.job.id ≡ id)
      × (p.finished ≡ true)
      × (((q : PendingJob) → get_elem? s.pending ref ≡ some q → q.finished ≡ false)
          → p.result ≡ res)
unfolding step on_job_complete add_worker check_is_stop
step-complete_done id res s t running inv e =
    let (inv', _) = step-Safe (complete id res) s t running inv e in
    let (u, ended, c) = on_job_complete-Completes [] id res s running inv in
    let (jobs, pending) = same_jobs u ended in
    let (p, at, own) = inv'.entries id c.ref (ap (λ m. lookup id_discrete m id) jobs ∙ c.entry) in
    let found : get_elem? t.pending c.ref ≡ some c.job =
      ap (λ l. get_elem? l c.ref) pending ∙ c.at in
    let same : p ≡ c.job = cc in
    (
      c.ref,
      p,
      at,
      own,
      ap (λ (q : PendingJob). q.finished) same ∙ c.done,
      λ fresh. ap (λ (q : PendingJob). q.result) same ∙ c.result fresh,
    )
  where
    same_jobs :
        (u : Scheduler) {b : Bool}
        → on_job_complete [] id res s ≡ returns (u, b)
        → (t.jobs ≡ u.jobs) × (t.pending ≡ u.pending)
    same_jobs u h = elim (Outcome-cases (complete_job id res s)) [
      | inl p ↦ absurd (ground (arith, e, p, running))
      | inr (inl p) ↦ absurd (ground (arith, e, p, running))
      | inr (inr ((v, b), p)) ↦
          let at_t : v ≡ t = ground (arith, e, p, running) in
          let at_u : add_worker [] id v ≡ u = ground (arith, h, p, running) in
          (
            ap (λ (v : Scheduler). v.jobs) (sym at_t) ∙ ap (λ (v : Scheduler). v.jobs) at_u,
            ap (λ (v : Scheduler). v.pending) (sym at_t) ∙ ap (λ (v : Scheduler). v.pending) at_u,
          )
    ]
